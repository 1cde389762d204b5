-- ===== src/FileView/Windows.antt =====
-- Memory-mapped files on Windows: cero/util/file_view.win.cc. `none` is `INVALID_HANDLE_VALUE` for
-- a file and null for a mapping and an address. The path is converted by cero/util/utf16.win.cc.
use cero.Common.{
  All, Option-cases, inl, inr, ℕ, Bool, true, false, ◌%◌, ◌^◌, Option, none, some, [], ◌∷◌, ◌++◌,
  Bytes, ltb, ◌==◌, if◌then◌else◌, ◌≡◌, refl, append_assoc, ◌∙◌, ap, subst, if_rule,
}
use cero.Lexer.Lexed.Keywords.{IsByte}
use cero.FileView.Platform.{Opened, Opens, Platform}
use cero.FileView.System.{
  Accepts, TakesBack, ErrorCondition, Answer, on_answer, on_answer_rule, gives, failed, Resource,
  handle, mapped, World, give_back_if, opt_list, SameResources, give_back_if_lem,
  SameResources-refl,
}

-- `FileView::Impl`.
pub record FileView : Type 0 where
  pub file : Option ℕ
  pub size : ℕ
  pub mapping : Option ℕ
  pub addr : Option ℕ

abbrev pub empty_view : FileView
empty_view = record { file = none; size = 0; mapping = none; addr = none }

abbrev handle_of : Option ℕ → Option Resource
handle_of none = none
handle_of (some n) = some (handle n)

abbrev memory_at : Option ℕ → Option Resource
memory_at none = none
memory_at (some n) = some (mapped n)

-- What the four calls answer.
pub record Answers : Type 0 where
  pub create_file : Answer ℕ
  pub get_file_size : Answer ℕ
  pub create_file_mapping : Answer ℕ
  pub map_view_of_file : Answer ℕ

unfoldable pub get_text : (ℕ → ℕ → Bytes) → FileView → Bytes
get_text memory f =
    if f.size == 0 then [] else elim f.addr [ none ↦ [] | some addr ↦ memory addr f.size ]

-- The move constructor: the new view, and the one moved from.
unfoldable pub move_view : FileView → FileView × FileView
move_view other = (other, empty_view)

abbrev pub owned : FileView → World
owned f =
    opt_list (memory_at f.addr) ++ (opt_list (handle_of f.mapping) ++ opt_list (handle_of f.file))

module _ (accepts : Accepts) where
  -- `UnmapViewOfFile` and `CloseHandle`, for the mapping and then for the file.
  unfoldable pub destroy : FileView → World → Option World
  destroy f w = elim (give_back_if accepts (memory_at f.addr) w) [
    | none ↦ none
    | some v ↦ elim (give_back_if accepts (handle_of f.mapping) v) [
      | none ↦ none
      | some u ↦ give_back_if accepts (handle_of f.file) u
    ]
  ]

  -- An early return with the error: the destructor of the unfinished view runs.
  unfoldable pub give_up : FileView → ErrorCondition → World → Opened FileView
  give_up f e w = elim (destroy f w) [ none ↦ none | some v ↦ some (failed e, v) ]

  unfoldable pub map_view : Answers → FileView → World → Opened FileView
  map_view a f w =
      on_answer a.map_view_of_file (λ e. give_up f e w)
        λ addr. some (gives (record f { addr = some addr }), mapped addr ∷ w)

  unfoldable pub map_file : Answers → FileView → World → Opened FileView
  map_file a f w =
      on_answer a.create_file_mapping (λ e. give_up f e w)
        λ mapping. map_view a (record f { mapping = some mapping }) (handle mapping ∷ w)

  -- Files of size zero are not mapped.
  unfoldable pub map_if_nonzero : Answers → FileView → World → Opened FileView
  map_if_nonzero a f w = if ltb 0 f.size then map_file a f w else some (gives f, w)

  unfoldable pub measure_file : Answers → FileView → World → Opened FileView
  measure_file a f w =
      on_answer a.get_file_size (λ e. give_up f e w)
        λ file_size. map_if_nonzero a (record f { size = file_size % 2 ^ 64 }) w

  unfoldable pub from : Answers → World → Opened FileView
  from a w =
      on_answer a.create_file (λ e. give_up empty_view e w)
        λ file. measure_file a (record empty_view { file = some file }) (handle file ∷ w)

  -- The move assignment: nothing where the view is assigned to itself, else the view is destroyed and
  -- takes what the other one has, which is left empty.
  unfoldable pub assign_view :
      Bool → FileView → FileView → World → Option (FileView × FileView × World)
  unfolding move_view
  assign_view is_self this other w =
      if is_self then some (this, other, w) else elim (destroy this w) [
        | none ↦ none
        | some v ↦ some ((move_view other).0, (move_view other).1, v)
      ]

pub get_text-IsByte :
    (memory : ℕ → ℕ → Bytes) (f : FileView)
    → ((addr n : ℕ) → All IsByte (memory addr n))
    → All IsByte (get_text memory f)
unfolding get_text
get_text-IsByte memory f h =
    if_rule (All IsByte) (f.size == 0) (λ _. tt)
      (λ _. elim (Option-cases f.addr) [ inl e ↦ rw e tt | inr (addr, e) ↦ rw e (h addr f.size) ])

pub owned-move : (f : FileView) → (owned (move_view f).0 ≡ owned f) × (owned (move_view f).1 ≡ [])
unfolding move_view
owned-move f = (refl, refl)

module _ (accepts : Accepts) where
  pub assign_self : (f : FileView) (w : World) → assign_view accepts true f f w ≡ some (f, f, w)
  unfolding assign_view
  assign_self f w = refl

  pub assign_other :
      (f g : FileView) (w v : World)
      → destroy accepts f w ≡ some v
      → assign_view accepts false f g w ≡ some ((move_view g).0, (move_view g).1, v)
  unfolding assign_view
  assign_other f g w v h = rw (h, assign_view)

module _ (accepts : Accepts) (takes_back : TakesBack accepts) where
  pub destroy_lem :
      (f : FileView) (w rest : World)
      → SameResources w (owned f ++ rest)
      → (v : World) × (destroy accepts f w ≡ some v) × SameResources v rest
  unfolding destroy
  destroy_lem f w rest h =
      let memory = opt_list (memory_at f.addr) in
      let mapping = opt_list (handle_of f.mapping) in
      let file = opt_list (handle_of f.file) in
      let shape : (memory ++ (mapping ++ file)) ++ rest ≡ memory ++ (mapping ++ (file ++ rest)) =
        append_assoc memory (mapping ++ file) rest
        ∙ ap (λ x. memory ++ x) (append_assoc mapping file rest) in
      let (u, e, k) =
        give_back_if_lem accepts (memory_at f.addr) w (mapping ++ (file ++ rest)) takes_back
          (subst (SameResources w) shape h) in
      let (v, d, m) =
        give_back_if_lem accepts (handle_of f.mapping) u (file ++ rest) takes_back k in
      let (x, c, n) = give_back_if_lem accepts (handle_of f.file) v rest takes_back m in
      (x, rw (e, d, destroy) c, n)

  give_up-Opens :
      (f : FileView) (e : ErrorCondition) (w rest : World)
      → SameResources w (owned f ++ rest)
      → Opens owned rest (give_up accepts f e w)
  unfolding give_up
  give_up-Opens f e w rest h = let (v, d, m) = destroy_lem f w rest h in rw (d, give_up) m

  map_file-Opens :
      (a : Answers) (file size : ℕ) (w : World)
      → Opens owned w (
          map_file accepts a
            (record empty_view { file = some file; size = size })
            (handle file ∷ w))
  unfolding map_file map_view
  map_file-Opens a file size w =
      on_answer_rule (Opens owned w) a.create_file_mapping
        (λ e.
          give_up-Opens (record empty_view { file = some file; size = size }) e (handle file ∷ w) w
            (SameResources-refl (handle file ∷ w)))
        (λ mapping.
          on_answer_rule (Opens owned w) a.map_view_of_file
            (λ e.
              give_up-Opens
                (record empty_view { file = some file; size = size; mapping = some mapping }) e
                (handle mapping ∷ handle file ∷ w) w
                (SameResources-refl (handle mapping ∷ handle file ∷ w)))
            (λ addr. SameResources-refl (mapped addr ∷ handle mapping ∷ handle file ∷ w)))

  measure_file-Opens :
      (a : Answers) (file : ℕ) (w : World)
      → Opens owned w
          (measure_file accepts a (record empty_view { file = some file }) (handle file ∷ w))
  unfolding measure_file map_if_nonzero
  measure_file-Opens a file w =
      on_answer_rule (Opens owned w) a.get_file_size
        (λ e.
          give_up-Opens (record empty_view { file = some file }) e (handle file ∷ w) w
            (SameResources-refl (handle file ∷ w)))
        (λ file_size.
          if_rule (Opens owned w) (ltb 0 (file_size % 2 ^ 64))
            (λ _. map_file-Opens a file (file_size % 2 ^ 64) w)
            (λ _. SameResources-refl (handle file ∷ w)))

  pub from-Opens : (a : Answers) (w : World) → Opens owned w (from accepts a w)
  unfolding from
  from-Opens a w =
      on_answer_rule (Opens owned w) a.create_file
        (λ e. give_up-Opens empty_view e w w (SameResources-refl w))
        (λ file. measure_file-Opens a file w)

abbrev pub windows : Accepts → Platform
windows accepts = record {
  View = FileView;
  Answers = Answers;
  accepts = accepts;
  from = from accepts;
  destroy = destroy accepts;
  get_text = get_text;
  owned = owned;
  move = move_view;
  assign = assign_view accepts;
  owned-move = owned-move;
  assign_self = assign_self accepts;
  assign_other = assign_other accepts;
  from-Opens = from-Opens accepts;
  destroy_lem = destroy_lem accepts;
  get_text-IsByte = get_text-IsByte;
}
