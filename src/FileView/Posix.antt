-- ===== src/FileView/Posix.antt =====
-- Memory-mapped files on Posix systems: cero/util/file_view.posix.cc. `none` is the descriptor -1
-- and the address `MAP_FAILED`.
use cero.Common.{
  All, Option-cases, inl, inr, ℕ, Bool, true, false, ◌%◌, ◌^◌, Option, none, some, [], ◌∷◌, ◌++◌,
  Bytes, ltb, ◌==◌, if◌then◌else◌, ◌≡◌, refl, append_assoc, subst, if_rule,
}
use cero.Lexer.Lexed.Keywords.{IsByte}
use cero.FileView.Platform.{Opened, Opens, Platform}
use cero.FileView.System.{
  Accepts, TakesBack, ErrorCondition, Answer, on_answer, on_answer_rule, gives, failed, Resource,
  handle, mapped, World, give_back_if, opt_list, SameResources, give_back_if_lem,
  SameResources-refl,
}

-- `FileView::Impl`.
pub record FileView : Type 0 where
  pub fd : Option ℕ
  pub size : ℕ
  pub addr : Option ℕ

abbrev pub empty_view : FileView
empty_view = record { fd = none; size = 0; addr = none }

abbrev descriptor : Option ℕ → Option Resource
descriptor none = none
descriptor (some n) = some (handle n)

abbrev memory_at : Option ℕ → Option Resource
memory_at none = none
memory_at (some n) = some (mapped n)

-- What `open`, `fstat` and `mmap` answer.
pub record Answers : Type 0 where
  pub open_file : Answer ℕ
  pub fstat : Answer ℕ
  pub mmap : Answer ℕ

unfoldable pub get_text : (ℕ → ℕ → Bytes) → FileView → Bytes
get_text memory f =
    if f.size == 0 then [] else elim f.addr [ none ↦ [] | some addr ↦ memory addr f.size ]

-- The move constructor: the new view, and the one moved from.
unfoldable pub move_view : FileView → FileView × FileView
move_view other = (other, empty_view)

abbrev pub owned : FileView → World
owned f = opt_list (memory_at f.addr) ++ opt_list (descriptor f.fd)

module _ (accepts : Accepts) where
  -- `munmap` and `close`, where there is something to unmap or to close.
  unfoldable pub destroy : FileView → World → Option World
  destroy f w = elim (give_back_if accepts (memory_at f.addr) w) [
    | none ↦ none
    | some v ↦ give_back_if accepts (descriptor f.fd) v
  ]

  -- An early return with the error: the destructor of the unfinished view runs.
  unfoldable pub give_up : FileView → ErrorCondition → World → Opened FileView
  give_up f e w = elim (destroy f w) [ none ↦ none | some v ↦ some (failed e, v) ]

  unfoldable pub map_file : Answers → FileView → World → Opened FileView
  map_file a f w =
      on_answer a.mmap (λ e. give_up f e w)
        λ addr. some (gives (record f { addr = some addr }), mapped addr ∷ w)

  -- Files of size zero are not mapped.
  unfoldable pub map_if_nonzero : Answers → FileView → World → Opened FileView
  map_if_nonzero a f w = if ltb 0 f.size then map_file a f w else some (gives f, w)

  unfoldable pub measure_file : Answers → FileView → World → Opened FileView
  measure_file a f w =
      on_answer a.fstat (λ e. give_up f e w)
        λ st_size. map_if_nonzero a (record f { size = st_size % 2 ^ 64 }) w

  unfoldable pub from : Answers → World → Opened FileView
  from a w =
      on_answer a.open_file (λ e. give_up empty_view e w)
        λ fd. measure_file a (record empty_view { fd = some fd }) (handle fd ∷ w)

  -- The move assignment: nothing where the view is assigned to itself, else the view is destroyed and
  -- takes what the other one has, which is left empty.
  unfoldable pub assign_view :
      Bool → FileView → FileView → World → Option (FileView × FileView × World)
  unfolding move_view
  assign_view is_self this other w =
      if is_self then some (this, other, w) else elim (destroy this w) [
        | none ↦ none
        | some v ↦ some ((move_view other).0, (move_view other).1, v)
      ]

pub get_text-IsByte :
    (memory : ℕ → ℕ → Bytes) (f : FileView)
    → ((addr n : ℕ) → All IsByte (memory addr n))
    → All IsByte (get_text memory f)
unfolding get_text
get_text-IsByte memory f h =
    if_rule (All IsByte) (f.size == 0) (λ _. tt)
      (λ _. elim (Option-cases f.addr) [ inl e ↦ rw e tt | inr (addr, e) ↦ rw e (h addr f.size) ])

pub owned-move : (f : FileView) → (owned (move_view f).0 ≡ owned f) × (owned (move_view f).1 ≡ [])
unfolding move_view
owned-move f = (refl, refl)

module _ (accepts : Accepts) where
  pub assign_self : (f : FileView) (w : World) → assign_view accepts true f f w ≡ some (f, f, w)
  unfolding assign_view
  assign_self f w = refl

  pub assign_other :
      (f g : FileView) (w v : World)
      → destroy accepts f w ≡ some v
      → assign_view accepts false f g w ≡ some ((move_view g).0, (move_view g).1, v)
  unfolding assign_view
  assign_other f g w v h = rw (h, assign_view)

module _ (accepts : Accepts) (takes_back : TakesBack accepts) where
  pub destroy_lem :
      (f : FileView) (w rest : World)
      → SameResources w (owned f ++ rest)
      → (v : World) × (destroy accepts f w ≡ some v) × SameResources v rest
  unfolding destroy
  destroy_lem f w rest h =
      let fd = opt_list (descriptor f.fd) in
      let (u, e, k) =
        give_back_if_lem accepts (memory_at f.addr) w (fd ++ rest) takes_back
          (subst (SameResources w) (append_assoc (opt_list (memory_at f.addr)) fd rest) h) in
      let (v, d, m) = give_back_if_lem accepts (descriptor f.fd) u rest takes_back k in
      (v, rw (e, destroy) d, m)

  give_up-Opens :
      (f : FileView) (e : ErrorCondition) (w rest : World)
      → SameResources w (owned f ++ rest)
      → Opens owned rest (give_up accepts f e w)
  unfolding give_up
  give_up-Opens f e w rest h = let (v, d, m) = destroy_lem f w rest h in rw (d, give_up) m

  map_file-Opens :
      (a : Answers) (fd size : ℕ) (w : World)
      → Opens owned w
          (map_file accepts a (record { fd = some fd; size = size; addr = none }) (handle fd ∷ w))
  unfolding map_file
  map_file-Opens a fd size w =
      on_answer_rule (Opens owned w) a.mmap
        (λ e.
          give_up-Opens (record { fd = some fd; size = size; addr = none }) e (handle fd ∷ w) w
            (SameResources-refl (handle fd ∷ w)))
        (λ addr. SameResources-refl (mapped addr ∷ handle fd ∷ w))

  measure_file-Opens :
      (a : Answers) (fd : ℕ) (w : World)
      → Opens owned w (measure_file accepts a (record empty_view { fd = some fd }) (handle fd ∷ w))
  unfolding measure_file map_if_nonzero
  measure_file-Opens a fd w =
      on_answer_rule (Opens owned w) a.fstat
        (λ e.
          give_up-Opens (record empty_view { fd = some fd }) e (handle fd ∷ w) w
            (SameResources-refl (handle fd ∷ w)))
        (λ st_size.
          if_rule (Opens owned w) (ltb 0 (st_size % 2 ^ 64))
            (λ _. map_file-Opens a fd (st_size % 2 ^ 64) w)
            (λ _. SameResources-refl (handle fd ∷ w)))

  pub from-Opens : (a : Answers) (w : World) → Opens owned w (from accepts a w)
  unfolding from
  from-Opens a w =
      on_answer_rule (Opens owned w) a.open_file
        (λ e. give_up-Opens empty_view e w w (SameResources-refl w))
        (λ fd. measure_file-Opens a fd w)

abbrev pub posix : Accepts → Platform
posix accepts = record {
  View = FileView;
  Answers = Answers;
  accepts = accepts;
  from = from accepts;
  destroy = destroy accepts;
  get_text = get_text;
  owned = owned;
  move = move_view;
  assign = assign_view accepts;
  owned-move = owned-move;
  assign_self = assign_self accepts;
  assign_other = assign_other accepts;
  from-Opens = from-Opens accepts;
  destroy_lem = destroy_lem accepts;
  get_text-IsByte = get_text-IsByte;
}
