-- ===== src/FileView/Platform.antt =====
-- What the rest of the program relies on of a memory-mapped file (cero/util/file_view.hh): the
-- operations that differ between the systems, and their laws.
use cero.Common.{All, ℕ, Bool, true, false, Option, none, some, [], ◌++◌, Bytes, ◌≡◌}
use cero.Lexer.Lexed.Keywords.{IsByte}
use cero.FileView.System.{Answer, gives, failed, World, SameResources, Accepts, TakesBack}

-- The result of `FileView::from`, and what the process holds then.
abbrev pub Opened : Type 0 → Type 0
Opened View = Option (Answer View × World)

-- A failure leaves the process with what it held; a view holds what came on top.
abbrev pub Opens : {View : Type 0} → (View → World) → World → Opened View → Type 0
Opens owned w none = ⊥
Opens owned w (some (failed e, v)) = SameResources v w
Opens owned w (some (gives f, v)) = SameResources v (owned f ++ w)

pub record Platform : Type 1 where
  pub View : Type 0
  -- What the system answers to the calls of one `from`.
  pub Answers : Type 0
  -- What it answers when the process gives a resource back.
  pub accepts : Accepts
  pub from : Answers → World → Opened View
  pub destroy : View → World → Option World
  -- The text of a view, given the contents of the mapped memory.
  pub get_text : (ℕ → ℕ → Bytes) → View → Bytes
  pub owned : View → World
  -- The move constructor: the new view, and the one moved from.
  pub move : View → View × View
  -- The move assignment, of a view to itself or to another one: the views then, and what the
  -- process holds.
  pub assign : Bool → View → View → World → Option (View × View × World)
  pub owned-move : (f : View) → (owned (move f).0 ≡ owned f) × (owned (move f).1 ≡ [])
  pub assign_self : (f : View) (w : World) → assign true f f w ≡ some (f, f, w)
  pub assign_other :
      (f g : View) (w v : World)
      → destroy f w ≡ some v
      → assign false f g w ≡ some ((move g).0, (move g).1, v)
  pub from-Opens : TakesBack accepts → (a : Answers) (w : World) → Opens owned w (from a w)
  pub destroy_lem :
      TakesBack accepts
      → (f : View) (w rest : World) → SameResources w (owned f ++ rest)
      → (v : World) × (destroy f w ≡ some v) × SameResources v rest
  pub get_text-IsByte :
      (memory : ℕ → ℕ → Bytes) (f : View)
      → ((addr n : ℕ) → All IsByte (memory addr n))
      → All IsByte (get_text memory f)
