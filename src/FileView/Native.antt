-- ===== src/FileView/Native.antt =====
-- The views of a program on the system that it is built for (cero/util/file_view.hh). The build takes
-- one of the two files (CMakeLists.txt).
use cero.Common.{Bool, true, false, List, ◌∷◌, ◌++◌, some, ◌≡◌}
use cero.FileView.Ownership.{Lives, all_owned, all_owned-SameResources, destroy-Lives}
use cero.FileView.Platform.{Platform}
use cero.FileView.Posix.{posix}
use cero.FileView.System.{Accepts, TakesBack, World, SameResources}
use cero.FileView.Windows.{windows}

-- Windows, or a Posix system.
abbrev pub platform : Bool → Accepts → Platform
platform true accepts = windows accepts
platform false accepts = posix accepts

-- On both systems, where the system takes back what the process holds, whatever views were opened,
-- moved, assigned, also to themselves, and destroyed, also where opening failed half-way, the
-- process holds the resources of the views that live and those it held before, each as often and no
-- other: when the last view is gone, it holds what it held before.
pub Lives-SameResources :
    (is_windows : Bool) (accepts : Accepts) {base w : World}
    {fs : List (platform is_windows accepts).View}
    → TakesBack accepts
    → Lives (platform is_windows accepts) base w fs
    → SameResources w (all_owned (platform is_windows accepts) fs ++ base)
Lives-SameResources true accepts takes_back = all_owned-SameResources (windows accepts) takes_back
Lives-SameResources false accepts takes_back = all_owned-SameResources (posix accepts) takes_back

-- On both systems, where the system takes back what the process holds, any view that lives can be
-- destroyed: the process holds each resource that the destructor gives back, so no assertion fails.
pub Lives-destroy :
    (is_windows : Bool) (accepts : Accepts) {base w : World}
    (fs gs : List (platform is_windows accepts).View) (f : (platform is_windows accepts).View)
    → TakesBack accepts
    → Lives (platform is_windows accepts) base w (fs ++ (f ∷ gs))
    → (v : World) × ((platform is_windows accepts).destroy f w ≡ some v)
Lives-destroy true accepts fs gs f takes_back = destroy-Lives (windows accepts) takes_back fs gs f
Lives-destroy false accepts fs gs f takes_back = destroy-Lives (posix accepts) takes_back fs gs f
