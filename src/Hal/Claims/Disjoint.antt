-- ===== src/Hal/Claims/Disjoint.antt =====
-- No object is claimed in both ways.
use Prim.Native.String.{String}
use eeros_framework.Base.{
  ℕ, ◌≡◌, refl, Bool, false, ◌&&◌, List, [], ◌∷◌, arith, elem, elem-insert_set, elem-erase,
}
use eeros_framework.Hal.Claims.{
  Ports, no_ports, access, claim, get, get_as, release, add, Call, call_get, call_get_as,
  call_release, call_add, call, calls,
}

-- An object with an exclusive claim has no other one.
abbrev pub AreDisjoint : Ports → Type 0
AreDisjoint p = (x : ℕ) → (elem x p.exclusive && elem x p.non_exclusive) ≡ false

access-AreDisjoint : (name : String) (p : Ports) → AreDisjoint p → AreDisjoint (access name p).1
unfolding access
access-AreDisjoint name p d x = ground (arith, d x)

claim-AreDisjoint : (x : ℕ) (e : Bool) (p : Ports) → AreDisjoint p → AreDisjoint (claim x e p).0
unfolding claim
claim-AreDisjoint x e p d y =
    ground (arith, d y, elem-insert_set y x p.exclusive, elem-insert_set y x p.non_exclusive)

get_as-AreDisjoint :
    (cast : ℕ → Bool) (name : String) (e : Bool) (p : Ports)
    → AreDisjoint p
    → AreDisjoint (get_as cast name e p).0
unfolding get_as
get_as-AreDisjoint cast name e p d x = ground (
  arith,
  access-AreDisjoint name p d x,
  claim-AreDisjoint (access name p).0 e (access name p).1 (access-AreDisjoint name p d) x,
)

release-AreDisjoint : (name : String) (p : Ports) → AreDisjoint p → AreDisjoint (release name p).0
unfolding release
release-AreDisjoint name p d x =
    let (y, q) = access name p in
    ground (
      arith,
      access-AreDisjoint name p d x,
      elem-erase x (access name p).0 (access name p).1.exclusive,
      elem-erase x (access name p).0 (access name p).1.non_exclusive,
    )

add-AreDisjoint : (y : ℕ) (name : String) (p : Ports) → AreDisjoint p → AreDisjoint (add y name p).0
unfolding add
add-AreDisjoint y name p d x = ground (arith, d x)

call-AreDisjoint : (c : Call) (p : Ports) → AreDisjoint p → AreDisjoint (call c p)
unfolding call get
call-AreDisjoint (call_get name e) p d =
    claim-AreDisjoint (access name p).0 e (access name p).1 (access-AreDisjoint name p d)
call-AreDisjoint (call_get_as cast name e) p d = get_as-AreDisjoint cast name e p d
call-AreDisjoint (call_release name) p d = release-AreDisjoint name p d
call-AreDisjoint (call_add x name) p d = add-AreDisjoint x name p d

pub calls-AreDisjoint : (cs : List Call) (p : Ports) → AreDisjoint p → AreDisjoint (calls cs p)
unfolding calls
calls-AreDisjoint [] p d = d
calls-AreDisjoint (c ∷ cs) p d = calls-AreDisjoint cs (call c p) (call-AreDisjoint c p d)

-- Whatever calls a program makes, no object ever has an exclusive and a non-exclusive claim at
-- once.
pub calls_disjoint :
    (cs : List Call) (x : ℕ)
    → let p = calls cs no_ports in (elem x p.exclusive && elem x p.non_exclusive) ≡ false
calls_disjoint cs = calls-AreDisjoint cs no_ports (λ x. refl)
