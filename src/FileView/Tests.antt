-- ===== src/FileView/Tests.antt =====
-- Runs of the operations of memory-mapped files (cero/util/file_view.hh).
use cero.Common.{true, false, [], ◌∷◌, ◌++◌, none, some, ◌≡◌, refl}
use cero.FileView.Ownership.{all_owned, Lives, begin, open_view, assign_to_itself, reorder}
use cero.FileView.Ownership as Views
use cero.FileView.Platform.{Platform}
use cero.FileView.Native.{Lives-SameResources, Lives-destroy, platform}
use cero.FileView.Posix.{
  FileView, Answers, assign_view, move_view, destroy, from, measure_file, map_if_nonzero, map_file,
}
use cero.FileView.System.{Accepts, World, SameResources, same, give_back_if, gives, handle, mapped}

abbrev answers : Answers
answers = record { open_file = gives 5; fstat = gives 6; mmap = gives 4096 }

abbrev view : FileView
view = record { fd = some 5; size = 6; addr = some 4096 }

abbrev empty : FileView
empty = record { fd = none; size = 0; addr = none }

abbrev opened : World
opened = mapped 4096 ∷ handle 5 ∷ handle 1 ∷ []

-- A system that takes everything back.
abbrev accepts : Accepts
accepts _ = true

abbrev system : Platform
system = platform false accepts

opening : from accepts answers (handle 1 ∷ []) ≡ some (gives view, opened)
unfolding from measure_file map_if_nonzero map_file
opening = refl

-- `close` fails, and the destructor stops at its assertion.
refused : destroy (λ r. same r (mapped 4096)) view opened ≡ none
unfolding destroy same give_back_if
refused = refl

assigning : assign_view accepts false empty view opened ≡ some (view, empty, opened)
unfolding assign_view move_view destroy give_back_if
assigning = refl

assigning_to_itself : assign_view accepts true view view opened ≡ some (view, view, opened)
unfolding assign_view
assigning_to_itself = refl

-- A view that was opened, moved from, given its file back, and then assigned to itself.
abbrev moved : Lives system (handle 1 ∷ []) opened (view ∷ empty ∷ [])
unfolding move_view
moved =
    assign_to_itself [] (empty ∷ []) view
      (Views.assign_view [] [] empty view
        (reorder [] [] view empty (Views.move_view [] [] view (open_view answers begin opening)))
        assigning)
      assigning_to_itself

Lives-SameResources_example :
    SameResources opened (all_owned system (view ∷ empty ∷ []) ++ (handle 1 ∷ []))
Lives-SameResources_example = Lives-SameResources false accepts (λ _. refl) moved

Lives-destroy_example : (v : World) × (destroy accepts view opened ≡ some v)
Lives-destroy_example = Lives-destroy false accepts [] (empty ∷ []) view (λ _. refl) moved
