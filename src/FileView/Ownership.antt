-- ===== src/FileView/Ownership.antt =====
-- The views of a program and what they own (cero/util/file_view.hh), on any system.
use cero.Common.{true, false, ◌+◌, some, List, [], ◌∷◌, ◌++◌, ◌≡◌, ap, subst, arith}
use cero.FileView.Platform.{Platform, Opens}
use cero.FileView.System.{
  TakesBack, ErrorCondition, gives, failed, Resource, World, count, count-append, SameResources,
}

module _ (P : Platform) where
  open P use {View, Answers, from, destroy, move, assign, owned}

  -- What the views own, one after another.
  abbrev pub all_owned : List View → World
  all_owned [] = []
  all_owned (f ∷ fs) = owned f ++ all_owned fs

  -- What the process holds and the views that live, after calls of the members of `FileView`. The
  -- process holds `base` without them. A view that is moved from lives on.
  pub data Lives (base : World) : World → List View → Type 0 where
    begin : Lives base base []
    open_view :
        {w v : World} {fs : List View} {f : View} (a : Answers)
        → Lives base w fs
        → from a w ≡ some (gives f, v)
        → Lives base v (f ∷ fs)
    cannot_open :
        {w v : World} {fs : List View} {e : ErrorCondition} (a : Answers)
        → Lives base w fs
        → from a w ≡ some (failed e, v)
        → Lives base v fs
    move_view :
        {w : World} (fs gs : List View) (f : View)
        → Lives base w (fs ++ (f ∷ gs))
        → Lives base w ((move f).0 ∷ (fs ++ ((move f).1 ∷ gs)))
    assign_view :
        {w v : World} {x y : View} (fs gs : List View) (f g : View)
        → Lives base w (f ∷ (fs ++ (g ∷ gs)))
        → assign false f g w ≡ some (x, y, v)
        → Lives base v (x ∷ (fs ++ (y ∷ gs)))
    assign_to_itself :
        {w v : World} {x y : View} (fs gs : List View) (f : View)
        → Lives base w (fs ++ (f ∷ gs))
        → assign true f f w ≡ some (x, y, v)
        → Lives base v (fs ++ (x ∷ gs))
    destroy_view :
        {w v : World} (fs gs : List View) (f : View)
        → Lives base w (fs ++ (f ∷ gs))
        → destroy f w ≡ some v
        → Lives base v (fs ++ gs)
    reorder :
        {w : World} (fs gs : List View) (f g : View)
        → Lives base w (fs ++ (f ∷ (g ∷ gs)))
        → Lives base w (fs ++ (g ∷ (f ∷ gs)))

  -- Every resource is counted in the views as often as the process holds it on top of the base.
  Accounts : World → World → List View → Type 0
  Accounts base w fs = (r : Resource) → count r w ≡ count r (all_owned fs) + count r base

  count-all_owned :
      (r : Resource) (fs gs : List View)
      → count r (all_owned (fs ++ gs)) ≡ count r (all_owned fs) + count r (all_owned gs)
  unfolding count
  count-all_owned r [] gs = omega arith
  count-all_owned r (f ∷ fs) gs = omega (
    arith,
    count-all_owned r fs gs,
    count-append r (owned f) (all_owned (fs ++ gs)),
    count-append r (owned f) (all_owned fs),
  )

  count-middle :
      (r : Resource) (fs gs : List View) (f : View)
      → count r (all_owned (fs ++ (f ∷ gs)))
        ≡ count r (all_owned fs) + count r (owned f) + count r (all_owned gs)
  count-middle r fs gs f =
      omega (arith, count-all_owned r fs (f ∷ gs), count-append r (owned f) (all_owned gs))

  count-front :
      (r : Resource) (fs gs : List View) (f g : View)
      → count r (all_owned (f ∷ (fs ++ (g ∷ gs))))
        ≡ count r (owned f) + count r (all_owned fs) + count r (owned g) + count r (all_owned gs)
  count-front r fs gs f g =
      omega (arith, count-append r (owned f) (all_owned (fs ++ (g ∷ gs))), count-middle r fs gs g)

  -- A move takes the resources along.
  count-move :
      (r : Resource) (f : View)
      → (count r (owned (move f).0) ≡ count r (owned f)) × (count r (owned (move f).1) ≡ 0)
  unfolding count
  count-move r f = let (e, k) = P.owned-move f in (ap (count r) e, ap (count r) k)

  moved_counts :
      (r : Resource) (fs gs : List View) (g : View)
      → count r (all_owned ((move g).0 ∷ (fs ++ ((move g).1 ∷ gs))))
        ≡ count r (all_owned (fs ++ (g ∷ gs)))
  moved_counts r fs gs g =
      let (e, k) = count-move r g in
      omega (arith, e, k, count-middle r fs gs g, count-front r fs gs (move g).0 (move g).1)

  -- The state behind an assignment of a view to itself.
  self_assigned :
      {w v : World} {x y : View} (f : View) → assign true f f w ≡ some (x, y, v) → (x ≡ f) × (v ≡ w)
  self_assigned {w} {v} {x} {y} f e = let k = P.assign_self f w in (cc, cc)

module _ (P : Platform) (takes_back : TakesBack P.accepts) where
  open P use {View, Answers, from, destroy, move, assign, owned}

  opened_counts :
      {w v : World} {f : View} (a : Answers) (r : Resource)
      → from a w ≡ some (gives f, v)
      → count r v ≡ count r (owned f) + count r w
  opened_counts {w} {v} {f} a r e =
      let s : SameResources v (owned f ++ w) =
        subst (Opens owned w) e (P.from-Opens takes_back a w) in
      omega (arith, s.counts r, count-append r (owned f) w)

  failed_counts :
      {w v : World} {e : ErrorCondition} (a : Answers) (r : Resource)
      → from a w ≡ some (failed e, v)
      → count r v ≡ count r w
  failed_counts {w} a r e =
      let s = subst (Opens owned w) e (P.from-Opens takes_back a w) in s.counts r

  -- A view whose resources are held can be destroyed, and they alone are given back.
  destroy_counts :
      {w : World} (f : View) (rest : World)
      → ((r : Resource) → count r w ≡ count r (owned f) + count r rest)
      → (v : World) × (destroy f w ≡ some v) × ((r : Resource) → count r v ≡ count r rest)
  destroy_counts {w} f rest h =
      let (v, e, s) =
        P.destroy_lem takes_back f w rest
          (record { counts = λ r. omega (arith, h r, count-append r (owned f) rest) }) in
      (v, e, s.counts)

  destroyed_counts :
      {w v : World} (f : View) (rest : World) (r : Resource)
      → ((r : Resource) → count r w ≡ count r (owned f) + count r rest)
      → destroy f w ≡ some v
      → count r v ≡ count r rest
  destroyed_counts {w} {v} f rest r h e =
      let (u, d, k) = destroy_counts f rest h in let same_world : v ≡ u = cc in rw same_world (k r)

  -- The view that is assigned to is destroyed, and takes what the other one owned.
  assigned_counts :
      {w v : World} {x y : View} (fs gs : List View) (f g : View) (base : World) (r : Resource)
      → ((r : Resource)
          → count r w ≡ count r (owned f) + count r (all_owned P (fs ++ (g ∷ gs)) ++ base))
      → assign false f g w ≡ some (x, y, v)
      → count r v ≡ count r (all_owned P (x ∷ (fs ++ (y ∷ gs)))) + count r base
  assigned_counts {w} {v} {x} {y} fs gs f g base r h e =
      let (u, d, k) = destroy_counts f (all_owned P (fs ++ (g ∷ gs)) ++ base) h in
      let a = P.assign_other f g w u d in
      let first : x ≡ (move g).0 = cc in
      let second : y ≡ (move g).1 = cc in
      let same_world : v ≡ u = cc in
      rw (first, second, same_world)
        (omega (
          arith,
          k r,
          moved_counts P r fs gs g,
          count-append r (all_owned P (fs ++ (g ∷ gs))) base,
        ))

  Lives-Accounts : {base w : World} {fs : List View} → Lives P base w fs → Accounts P base w fs
  unfolding Accounts count
  Lives-Accounts begin = λ r. omega arith
  Lives-Accounts (open_view {w} {v} {fs} {f} a h e) =
      let k = Lives-Accounts h in
      λ r. omega (arith, k r, opened_counts a r e, count-append r (owned f) (all_owned P fs))
  Lives-Accounts (cannot_open a h e) =
      let k = Lives-Accounts h in λ r. omega (arith, k r, failed_counts a r e)
  Lives-Accounts (move_view fs gs f h) =
      let k = Lives-Accounts h in λ r. omega (arith, k r, moved_counts P r fs gs f)
  Lives-Accounts {base} (assign_view {w} {v} {x} {y} fs gs f g h e) =
      let k = Lives-Accounts h in
      λ r.
        assigned_counts fs gs f g base r
          (λ s. omega (
            arith,
            k s,
            count-append s (all_owned P (fs ++ (g ∷ gs))) base,
            count-append s (owned f) (all_owned P (fs ++ (g ∷ gs))),
          ))
          e
  Lives-Accounts {base} (assign_to_itself {w} {v} {x} {y} fs gs f h e) =
      let k = Lives-Accounts h in
      let (same_view, same_world) = self_assigned P f e in rw (same_view, same_world) k
  Lives-Accounts {base} (destroy_view {w} {v} fs gs f h e) =
      let k = Lives-Accounts h in
      λ r. omega (
        arith,
        destroyed_counts f (all_owned P (fs ++ gs) ++ base) r
            (λ s. omega (
              arith,
              k s,
              count-middle P s fs gs f,
              count-all_owned P s fs gs,
              count-append s (all_owned P (fs ++ gs)) base,
            ))
            e,
        count-append r (all_owned P (fs ++ gs)) base,
      )
  Lives-Accounts (reorder fs gs f g h) =
      let k = Lives-Accounts h in
      λ r. omega (
        arith,
        k r,
        count-all_owned P r fs (f ∷ (g ∷ gs)),
        count-all_owned P r fs (g ∷ (f ∷ gs)),
        count-append r (owned f) (all_owned P (g ∷ gs)),
        count-append r (owned g) (all_owned P gs),
        count-append r (owned g) (all_owned P (f ∷ gs)),
        count-append r (owned f) (all_owned P gs),
      )

  -- Where the system takes back what the process holds, whatever views were opened, moved, assigned,
  -- also to themselves, and destroyed, also where opening failed half-way, the process holds the resources of the views that live and those it held before, each as often
  -- and no other: when the last view is gone, it holds what it held before.
  pub all_owned-SameResources :
      {base w : World} {fs : List View}
      → Lives P base w fs
      → SameResources w (all_owned P fs ++ base)
  unfolding Accounts
  all_owned-SameResources {base} {w} {fs} h =
      let k = Lives-Accounts h in
      record { counts = λ r. omega (arith, k r, count-append r (all_owned P fs) base) }

  -- Where the system takes back what the process holds, any view that lives can be destroyed: it
  -- holds each resource that its destructor gives back, so no assertion fails.
  pub destroy-Lives :
      {base w : World} (fs gs : List View) (f : View)
      → Lives P base w (fs ++ (f ∷ gs))
      → (v : World) × (destroy f w ≡ some v)
  unfolding Accounts
  destroy-Lives {base} {w} fs gs f h =
      let k = Lives-Accounts h in
      let (v, e, _) = destroy_counts f (all_owned P (fs ++ gs) ++ base) (λ s. omega (
        arith,
        k s,
        count-middle P s fs gs f,
        count-all_owned P s fs gs,
        count-append s (all_owned P (fs ++ gs)) base,
      )) in
      (v, e)
