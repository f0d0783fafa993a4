-- ===== src/Hal/Claims/Held.antt =====
-- How long an exclusive claim holds, and that a release undoes it.
use Prim.Native.String.{String}
use text.Mathlib.Text.{◌==◌ as str_eq}
use text.Mathlib.TextEquality.{eq_iff}
use eeros_framework.Base.{
  ℕ, ◌≡◌, refl, sym, ap, ap₂, erase-absent, ◌∙◌, ◌≢◌, none, some, Bool, true, false, List, [], ◌∷◌,
  arith, ◌==◌, elem, elem-insert_set, inl, inr, Option-cases, ok,
}
use eeros_framework.Hal.Claims.{Ports, find, access, claim, get, release, Call, call_release, call}

-- The name stands for the object, which has an exclusive claim.
pub record IsHeld (name : String) (x : ℕ) (p : Ports) : Type 0 where
  pub found : find name p.objects ≡ some x
  pub held : elem x p.exclusive ≡ true

-- None of the calls releases the object.
abbrev pub NeverReleases : ℕ → List Call → Ports → Type 0
NeverReleases x [] p = Unit
NeverReleases x (call_release n ∷ cs) p =
    ((access n p).0 ≢ x) × NeverReleases x cs (call (call_release n) p)
NeverReleases x (c ∷ cs) p = NeverReleases x cs (call c p)

access-new :
    (n : String) (p : Ports)
    → find n p.objects ≡ none
    → access n p ≡ (0, record p { objects = (n, 0) ∷ p.objects })
unfolding access
access-new n p e = rw (access, e) refl

access-known : (n : String) (p : Ports) (x : ℕ) → find n p.objects ≡ some x → access n p ≡ (x, p)
unfolding access
access-known n p x e = rw (access, e) refl

claim-ok :
    (x : ℕ) (p : Ports) (y : ℕ)
    → (claim x true p).1 ≡ ok y
    → (y ≡ x) × (elem x (claim x true p).0.exclusive ≡ true)
unfolding claim
claim-ok x p y h = ground (arith, elem-insert_set x x p.exclusive)

access-found :
    (name : String) (p : Ports) → find name (access name p).1.objects ≡ some (access name p).0
unfolding find
access-found name p = elim (Option-cases (find name p.objects)) [
  | inl e ↦ rw (access-new name p e) (find_first name p.objects)
  | inr (x, e) ↦ rw (access-known name p x e) e
]
  where
    find_first : (n : String) (m : List (String × ℕ)) → find n ((n, 0) ∷ m) ≡ some 0
    find_first n m = rw ((eq_iff n n).1 refl) refl

claim-objects : (x : ℕ) (e : Bool) (p : Ports) → (claim x e p).0.objects ≡ p.objects
unfolding claim
claim-objects x e p = ground arith

get-IsHeld :
    (name : String) (p : Ports) (x : ℕ)
    → (get name true p).1 ≡ ok x
    → IsHeld name x (get name true p).0
unfolding get
get-IsHeld name p x h =
    let (e, k) = claim-ok (access name p).0 (access name p).1 x h in
    rw e (record {
      found =
          ap (find name) (claim-objects (access name p).0 true (access name p).1)
          ∙ access-found name p;
      held = k;
    })

-- What a successful exclusive claim did.
claim-sets :
    (x : ℕ) (p : Ports) (y : ℕ)
    → (claim x true p).1 ≡ ok y
    → ((claim x true p).0.exclusive ≡ x ∷ p.exclusive)
      × ((claim x true p).0.non_exclusive ≡ p.non_exclusive)
      × (elem x p.non_exclusive ≡ false)
unfolding claim
claim-sets x p y h = ground arith

access-sets :
    (name : String) (p : Ports)
    → ((access name p).1.exclusive ≡ p.exclusive)
      × ((access name p).1.non_exclusive ≡ p.non_exclusive)
unfolding access
access-sets name p = ground arith

get-sets :
    (name : String) (p : Ports) (x : ℕ)
    → (get name true p).1 ≡ ok x
    → ((get name true p).0.exclusive ≡ x ∷ p.exclusive)
      × ((get name true p).0.non_exclusive ≡ p.non_exclusive)
      × (elem x p.non_exclusive ≡ false)
unfolding get
get-sets name p x h =
    let (y, q) = access name p in
    let (ee, en) = access-sets name p in
    let (same, _) = claim-ok (access name p).0 (access name p).1 x h in
    let (ce, cn, free) = claim-sets (access name p).0 (access name p).1 x h in
    (ce ∙ ap₂ ◌∷◌ (sym same) ee, cn ∙ en, ap₂ elem same (sym en) ∙ free)

-- A release directly after an exclusive claim succeeds and puts the claims back as they were
-- before.
pub release-get :
    (name : String) (p : Ports) (x : ℕ)
    → (get name true p).1 ≡ ok x
    → let (q, r) = release name (get name true p).0 in
      (r ≡ ok tt) × (q.exclusive ≡ p.exclusive) × (q.non_exclusive ≡ p.non_exclusive)
unfolding release
release-get name p x h =
    let (ee, en, free) = get-sets name p x h in
    let known = access-known name (get name true p).0 x (get-IsHeld name p x h).found in
    let same : (x == x) ≡ true = ground arith in
    rw known (rw (ee, en, free, same) (refl, refl, erase-absent x p.non_exclusive free))
