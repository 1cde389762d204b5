-- ===== src/FileView/System.antt =====
-- What the operating system hands out to a process, and takes back. What a call answers is an
-- argument of the model: the resource or the number that it gives, or the error that it sets.
use cero.Common.{
  ℕ, ◌+◌, ◌<◌, Bool, true, false, Option, none, some, List, [], ◌∷◌, ◌++◌, Bytes, ◌==◌, ◌≡◌, refl,
  ◌∙◌, arith, if◌then◌else◌, Bool-cases, inl, inr,
}

-- `std::error_condition`: whether it is `no_such_file_or_directory`, and its message.
pub record ErrorCondition : Type 0 where
  pub is_no_such_file : Bool
  pub message : Bytes

-- The answer of a call; `failed` is what `get_system_error` makes of the error number.
pub data Answer {ℓ} (A : Type ℓ) : Type ℓ where
  gives : A → Answer A
  failed : ErrorCondition → Answer A

-- What is done with either answer.
abbrev pub on_answer {ℓ κ} :
    {A : Type ℓ} {R : Type κ} → Answer A → (ErrorCondition → R) → (A → R) → R
on_answer (gives a) fail go_on = go_on a
on_answer (failed e) fail go_on = fail e

pub on_answer_rule {ℓ κ μ} :
    {A : Type ℓ} {R : Type κ} (P : R → Type μ) (a : Answer A) {fail : ErrorCondition → R}
    {go_on : A → R}
    → ((e : ErrorCondition) → P (fail e))
    → ((x : A) → P (go_on x))
    → P (on_answer a fail go_on)
on_answer_rule P (gives a) h k = k a
on_answer_rule P (failed e) h k = h e

-- A descriptor or a handle, or a mapped stretch of memory by its address.
pub data Resource : Type 0 where
  handle mapped : ℕ → Resource

unfoldable pub same : Resource → Resource → Bool
same (handle a) (handle b) = a == b
same (mapped a) (mapped b) = a == b
same _ _ = false

-- The resources that the process holds.
abbrev pub World : Type 0
World = List Resource

-- A resource that is held no more; `none` is one that was not held.
unfoldable remove : Resource → World → Option World
unfolding same
remove r [] = none
remove r (x ∷ xs) =
    let rest : Option World = elim (remove r xs) [ none ↦ none | some ys ↦ some (x ∷ ys) ] in
    if same x r then some xs else rest

-- What `munmap`, `close`, `UnmapViewOfFile` and `CloseHandle` answer of a resource that is held:
-- true where they succeed.
abbrev pub Accepts : Type 0
Accepts = Resource → Bool

abbrev pub TakesBack : Accepts → Type 0
TakesBack accepts = (r : Resource) → accepts r ≡ true

-- A resource is given back: `none` is the failed assertion on what the call answers, which fails
-- where the resource is not held, and where the system says so.
unfoldable pub give_back : Accepts → Resource → World → Option World
unfolding remove
give_back accepts r w = if accepts r then remove r w else none

-- The cleanup of something that may not have been acquired. `none` is a failed assertion.
unfoldable pub give_back_if : Accepts → Option Resource → World → Option World
unfolding give_back
give_back_if accepts none w = some w
give_back_if accepts (some r) w = give_back accepts r w

unfoldable pub count : Resource → World → ℕ
count r [] = 0
count r (x ∷ xs) = (if same x r then 1 else 0) + count r xs

-- The same resources, each as often.
pub record SameResources (w v : World) : Type 0 where
  pub counts : (r : Resource) → count r w ≡ count r v

same_refl : (r : Resource) → same r r ≡ true
unfolding same
same_refl (handle a) = ground arith
same_refl (mapped a) = ground arith

same→eq : (r s : Resource) → same r s ≡ true → r ≡ s
unfolding same
same→eq (handle a) (handle b) h = ground arith
same→eq (mapped a) (mapped b) h = ground arith
same→eq (handle a) (mapped b) h = cc
same→eq (mapped a) (handle b) h = cc

-- It is held, and the others stay when it is removed.
Removes : Resource → World → Type 0
Removes r w = (v : World) × (remove r w ≡ some v) × ((s : Resource) → count s w ≡ count s (r ∷ v))

remove_behind : (r x : Resource) (xs : World) → same x r ≡ false → Removes r xs → Removes r (x ∷ xs)
unfolding Removes remove count
remove_behind r x xs e (v, f, k) = (x ∷ v, rw (e, f, remove), λ s. omega (arith, k s))

remove_held : (r : Resource) (w : World) → 0 < count r w → Removes r w
unfolding Removes remove count
remove_held r [] h = absurd (omega arith)
remove_held r (x ∷ xs) h = elim (Bool-cases (same x r)) [
  | inl e ↦ (xs, rw (e, remove), λ s. rw (same→eq x r e))
  | inr e ↦ let h2 = rw e at h in remove_behind r x xs e (remove_held r xs (omega arith))
]

give_back_lem :
    (accepts : Accepts) (r : Resource) (w rest : World)
    → TakesBack accepts
    → SameResources w (r ∷ rest)
    → (v : World) × (give_back accepts r w ≡ some v) × SameResources v rest
unfolding count Removes give_back
give_back_lem accepts r w rest takes_back h =
    let e : count r w ≡ 1 + count r rest = h.counts r ∙ rw (same_refl r) in
    let (v, f, k) = remove_held r w (omega arith) in
    (v, rw (takes_back r, give_back) f, record { counts = λ s. omega (arith, h.counts s, k s) })

pub count-append : (r : Resource) (w v : World) → count r (w ++ v) ≡ count r w + count r v
unfolding count
count-append r [] v = omega arith
count-append r (x ∷ w) v = omega (arith, count-append r w v)

abbrev pub opt_list : Option Resource → World
opt_list none = []
opt_list (some r) = r ∷ []

-- A cleanup gives back what was acquired, and does not fail where the system takes it back.
pub give_back_if_lem :
    (accepts : Accepts) (o : Option Resource) (w rest : World)
    → TakesBack accepts
    → SameResources w (opt_list o ++ rest)
    → (v : World) × (give_back_if accepts o w ≡ some v) × SameResources v rest
unfolding give_back_if
give_back_if_lem accepts none w rest takes_back h = (w, refl, h)
give_back_if_lem accepts (some r) w rest takes_back h = give_back_lem accepts r w rest takes_back h

pub SameResources-refl : (w : World) → SameResources w w
SameResources-refl w = record { counts = λ r. refl }
