-- ===== src/Config/Search/Exact.antt =====
-- internal/config/workflow.go: the walk against the cycles of its graph.
use mathlib.Core.List.Memᴰ
use native.Mathlib.Nat.{lt_of_le_of_lt as le_lt_trans}
use agent_debug_squad.Common.{
  ℕ, zero, suc, ◌<◌, ◌≡◌, refl, sym, ◌∙◌, ap, subst, ◌⊎◌, inl, inr, Option, some, List, [], ◌∷◌,
  ◌++◌, String, Memᴰ, arith, last?,
}
use agent_debug_squad.Config.Search.{
  unvisited, visiting, visited, Marks, set_mark, Outcome, found, clear, stuck, scan, visit,
}
use agent_debug_squad.Config.Search.Trails.{
  Mark-cases, set_mark_same, set_mark-cases, pending, pending_mono, pending-lt, IsPath, IsBack,
  IsPath-snoc,
}
use agent_debug_squad.Config.Search.Explored.{
  last?_snoc, Outcome-cases, IsSealed, Explored, OnPath, Explored-old, IsSealed-close,
}

module _ {R : Type 0} (edges : String → List String)
    (report : List String → String → Option R) where
  -- What a reported cycle comes from.
  pub record IsReported (r : R) : Type 0 where
    pub path : List String
    pub dep : String
    pub back : IsBack edges path dep
    pub is_report : report path dep ≡ some r

  -- Every way back is reported.
  abbrev pub Reports : Type 0
  Reports =
      (path : List String) (dep : String)
      → IsBack edges path dep
      → (r : R) × (report path dep ≡ some r)

  -- Only known names have edges.
  abbrev pub Knows : List String → Type 0
  Knows known = (a b : String) → Memᴰ b (edges a) → Memᴰ a known

  -- The outcome of a visit of `name` at the marks `s`.
  abbrev pub Visited : Marks → String → Outcome R → Type 0
  Visited s name (found r) = IsReported r
  Visited s name (clear t) = Explored edges s t × (t name ≡ visited)
  Visited s name stuck = ⊥

  -- The outcome of the loop over the edges of `name`, which is being visited.
  abbrev Scanned : Marks → String → Outcome R → Type 0
  Scanned s name (found r) = IsReported r
  Scanned s name (clear t) =
      IsSealed edges t
      × ((a : String) → s a ≡ visited → t a ≡ visited)
      × ((a : String) → s a ≡ visiting → (a ≡ name) ⊎ (t a ≡ visiting))
      × ((a : String) → t a ≡ visiting → s a ≡ visiting)
      × (t name ≡ visited)
  Scanned s name stuck = ⊥

  -- What a visit needs: the path reaches the name, the marks fit the path, and the fuel suffices.
  pub record Ready (known : List String) (fuel : ℕ) (path : List String) (s : Marks) (d : String)
      : Type 0 where
    pub is_new : s d ≡ unvisited
    pub is_path : IsPath edges (path ++ d ∷ [])
    pub on_path : OnPath edges s path
    pub is_sealed : IsSealed edges s
    pub fits : pending s known < fuel

  Scanned-trans :
      (s t : Marks) (name : String) (o : Outcome R)
      → Explored edges s t
      → Scanned t name o
      → Scanned s name o
  Scanned-trans s t name (found r) e h = h
  Scanned-trans s t name (clear u) e (sealed, up, open_marks, old, done) = (
    sealed,
    λ a h. up a (e.keeps_visited a h),
    λ a h. open_marks a (e.keeps_visiting a h),
    λ a h. e.no_more a (old a h),
    done,
  )
  Scanned-trans s t name stuck e h = h

  module _ (go : Marks → String → Outcome R) (path : List String) (name : String) (s : Marks)
      (d : String) (ds : List String) where
    scan_old :
        s d ≡ visited
        → scan edges report go path name s (d ∷ ds) ≡ scan edges report go path name s ds
    unfolding scan
    scan_old h = ground (arith, h)

    scan-open :
        (r : R)
        → s d ≡ visiting
        → report path d ≡ some r
        → scan edges report go path name s (d ∷ ds) ≡ found r
    unfolding scan
    scan-open r h e = ground (arith, h, e)

    scan-found :
        (r : R)
        → s d ≡ unvisited
        → go s d ≡ found r
        → scan edges report go path name s (d ∷ ds) ≡ found r
    unfolding scan
    scan-found r h e = ground (arith, h, e)

    scan-clear :
        (t : Marks)
        → s d ≡ unvisited
        → go s d ≡ clear t
        → scan edges report go path name s (d ∷ ds) ≡ scan edges report go path name t ds
    unfolding scan
    scan-clear t h e = ground (arith, h, e)

  module _ (reports : Reports) (known : List String) (knows : Knows known) where
    scan-Scanned :
        (fuel : ℕ) (go : Marks → String → Outcome R) (path : List String) (name : String)
        → last? path ≡ some name
        → IsPath edges path
        → ((s : Marks) (d : String) → Ready known fuel path s d → Visited s d (go s d))
        → (s : Marks) (ds : List String) → s name ≡ visiting
        → OnPath edges s path
        → IsSealed edges s
        → ((b : String) → Memᴰ b ds → pending s known < fuel)
        → ((b : String) → Memᴰ b ds → Memᴰ b (edges name))
        → ((b : String) → Memᴰ b (edges name) → (s b ≡ visited) ⊎ Memᴰ b ds)
        → Scanned s name (scan edges report go path name s ds)
    scan-Scanned fuel go path name ends is_path rec s [] open_mark on_path sealed fits sub done =
        unfold scan in
        (
          IsSealed-close edges s name sealed open_mark
              (λ b m. elim (done b m) [ inl h ↦ h | inr h ↦ elim h [ ] ]),
          λ a h. elim (set_mark-cases name visited s a) [ inl (_, v) ↦ v | inr e ↦ e ∙ h ],
          λ a h. elim (set_mark-cases name visited s a) [
            | inl (e, _) ↦ inl e
            | inr e ↦ inr (e ∙ h)
          ],
          λ a h. elim (set_mark-cases name visited s a) [ inl (_, v) ↦ cc | inr e ↦ sym e ∙ h ],
          set_mark_same name visited s,
        )
    scan-Scanned fuel go path name ends is_path rec s (d ∷ ds) open_mark on_path sealed fits sub
          done =
        let is_edge = sub d (Memᴰ.head refl) in
        let old_step = λ (t : Marks) (e : Explored edges s t) (h : t d ≡ visited).
          scan-Scanned fuel go path name ends is_path rec t ds (e.keeps_visiting name open_mark)
            (λ a m. on_path a (e.no_more a m)) e.is_sealed
            (λ b m.
              le_lt_trans (pending_mono s t known (λ a m. Explored-old edges s t a e m))
                (fits b (Memᴰ.tail m)))
            (λ b m. sub b (Memᴰ.tail m))
            (λ b m. elim (done b m) [
              | inl v ↦ inl (e.keeps_visited b v)
              | inr r ↦ elim (Memᴰ.cases_cons r) [ inl is ↦ inl (ap t is ∙ h) | inr r ↦ inr r ]
            ]) in
        elim (Mark-cases (s d)) [
          | inl new ↦
              let visited_next = rec s d (record {
                is_new = new;
                is_path = IsPath-snoc edges path name d is_path ends is_edge;
                on_path = on_path;
                is_sealed = sealed;
                fits = fits d (Memᴰ.head refl);
              }) in
              elim (Outcome-cases (go s d)) [
                | inl (r, e) ↦
                    subst (Scanned s name) (sym (scan-found go path name s d ds r new e))
                      (subst (Visited s d) e visited_next)
                | inr (inl (t, e)) ↦
                    let v = subst (Visited s d) e visited_next in
                    subst (Scanned s name) (sym (scan-clear go path name s d ds t new e))
                      (Scanned-trans s t name _ v.0 (old_step t v.0 v.1))
                | inr (inr e) ↦ absurd (subst (Visited s d) e visited_next)
              ]
          | inr (inl open_dep) ↦
              let back : IsBack edges path d =
                (is_path, (name, ends, is_edge), on_path d open_dep) in
              let (r, e) = reports path d back in
              subst (Scanned s name) (sym (scan-open go path name s d ds r open_dep e))
                (record { path = path; dep = d; back = back; is_report = e })
          | inr (inr old) ↦ subst (Scanned s name) (sym (scan_old go path name s d ds old)) (
              old_step s
                (record {
                  keeps_visited = λ a h. h;
                  keeps_visiting = λ a h. h;
                  no_more = λ a h. h;
                  is_sealed = sealed;
                })
                old)
        ]

    -- The walk from a scan of the edges of `name`, back to the marks before it was marked.
    Visited-scan :
        (s : Marks) (name : String) (o : Outcome R)
        → s name ≡ unvisited
        → Scanned (set_mark name visiting s) name o
        → Visited s name o
    Visited-scan s name (found r) new h = h
    Visited-scan s name stuck new h = h
    Visited-scan s name (clear t) new (sealed, up, open_marks, old, done) = (
      record {
        keeps_visited = λ a h. elim (set_mark-cases name visiting s a) [
          | inl (e, _) ↦ cc
          | inr e ↦ up a (e ∙ h)
        ];
        keeps_visiting = λ a h. elim (set_mark-cases name visiting s a) [
          | inl (e, _) ↦ cc
          | inr e ↦ elim (open_marks a (e ∙ h)) [ inl is ↦ cc | inr keeps ↦ keeps ]
        ];
        no_more = λ a h. elim (set_mark-cases name visiting s a) [
          | inl (e, _) ↦ cc
          | inr e ↦ sym e ∙ old a h
        ];
        is_sealed = sealed;
      },
      done,
    )

    IsSealed-open :
        (s : Marks) (name : String)
        → IsSealed edges s
        → s name ≡ unvisited
        → IsSealed edges (set_mark name visiting s)
    IsSealed-open s name sealed new =
        let old = λ (a : String) (h : set_mark name visiting s a ≡ visited).
          elim (set_mark-cases name visiting s a) as (λ _. s a ≡ visited) [
            | inl (_, v) ↦ cc
            | inr e ↦ sym e ∙ h
          ] in
        record {
          closed = λ a b h m. elim (set_mark-cases name visiting s b) [
            | inl (e, _) ↦ cc (sealed.closed a b (old a h) m)
            | inr e ↦ e ∙ sealed.closed a b (old a h) m
          ];
          acyclic = λ a h tr. sealed.acyclic a (old a h) tr;
        }

    pub visit-Visited :
        (fuel : ℕ) (path : List String) (s : Marks) (name : String)
        → Ready known fuel path s name
        → Visited s name (visit edges report fuel path s name)
    unfolding visit
    visit-Visited zero path s name ready = absurd (omega (arith, ready.fits))
    visit-Visited (suc fuel) path s name ready =
        let here = path ++ name ∷ [] in
        let marked = set_mark name visiting s in
        Visited-scan s name _ ready.is_new (
          scan-Scanned fuel (visit edges report fuel here) here name (last?_snoc path name)
            ready.is_path (visit-Visited fuel here) marked (edges name)
            (set_mark_same name visiting s)
            (λ a h. elim (set_mark-cases name visiting s a) [
              | inl (e, _) ↦ Memᴰ.append_right path (Memᴰ.head e)
              | inr e ↦ Memᴰ.append_left _ (ready.on_path a (sym e ∙ h))
            ])
            (IsSealed-open s name ready.is_sealed ready.is_new)
            (λ b m.
              omega (arith, pending-lt name s known (knows name b m) ready.is_new, ready.fits))
            (λ b m. m) (λ b m. inr m))
