-- ===== src/Safety/System/Cycle.antt =====
-- One whole cycle, `SafetySystem::run`, and what follows from it for the cycle after.
use eeros_framework.Base.{
  ℕ, ◌≤◌, ◌≡◌, refl, sym, ap, subst, ◌∙◌, Bool, true, Option, none, some, List, [], ◌∷◌, ◌++◌,
  arith, All, Store, ok,
}
use eeros_framework.Safety.Level.{
  SafetyEvent, Request, in_context, InputAction, Level, rank, get_dest_level_for_event,
}
use eeros_framework.Safety.System.{
  System, Hal, make_requests, switch_level, fires, set_outputs, run_level, run,
}
use eeros_framework.Safety.System.Trigger.{
  AtMost, Keeps, Keeps-trans, bound_later, IsServed, dest_of, take_next_level_lem,
  make_requests-Runs,
}
use eeros_framework.Safety.System.Run.{
  entered, switch_level-Switched, activate, IsReacted, check_inputs-Runs, call-Runs,
}

module _ {W V : Type 0} where
  id-activate : (heap : Store (Level W V)) (l q : ℕ) → (activate heap l q).id ≡ (heap q).id
  id-activate heap l q = ground arith

  transitions-activate :
      (heap : Store (Level W V)) (l q : ℕ) → (activate heap l q).transitions ≡ (heap q).transitions
  transitions-activate heap l q = ground arith

  get_dest_level-transitions :
      (a b : Level W V) (event : SafetyEvent) (private_event_ok : Bool)
      → a.transitions ≡ b.transitions
      → get_dest_level_for_event a event private_event_ok
        ≡ get_dest_level_for_event b event private_event_ok
  unfolding get_dest_level_for_event
  get_dest_level-transitions a b event private_event_ok h = rw (h, get_dest_level_for_event)

  dest_of-activate :
      (heap : Store (Level W V)) (l q : ℕ) (r : Request)
      → dest_of (activate heap l q) r ≡ dest_of (heap q) r
  dest_of-activate heap l q r =
      get_dest_level-transitions (activate heap l q) (heap q) _ _ (transitions-activate heap l q)

  AtMost-activate :
      (heap : Store (Level W V)) (l k : ℕ) (next : Option ℕ)
      → AtMost (activate heap l) k next
      → AtMost heap k next
  AtMost-activate heap l k none h = h
  AtMost-activate heap l k (some m) h = rw (id-activate heap l m) at h

  AtMost-activate_back :
      (heap : Store (Level W V)) (l k : ℕ) (next : Option ℕ)
      → AtMost heap k next
      → AtMost (activate heap l) k next
  AtMost-activate_back heap l k none h = h
  AtMost-activate_back heap l k (some m) h = rw (id-activate heap l m) h

  IsServed-activate :
      (heap : Store (Level W V)) (l : ℕ) (next : Option ℕ) (r : Request)
      → IsServed (activate heap l) l next r
      → IsServed heap l next r
  IsServed-activate heap l next r h n d =
      AtMost-activate heap l (rank (heap n).id) next
        (rw (id-activate heap l n) at (h n (dest_of-activate heap l l r ∙ d)))

  pub set_outputs-same :
      (hal : Hal W V) (actions : List (Option ℕ)) (s : System W V)
      → ((set_outputs hal s actions).current_level ≡ s.current_level)
        × ((set_outputs hal s actions).levels ≡ s.levels)
        × ((set_outputs hal s actions).next_level ≡ s.next_level)
  unfolding set_outputs
  set_outputs-same hal [] s = (refl, refl, refl)
  set_outputs-same hal (none ∷ actions) s = set_outputs-same hal actions s
  set_outputs-same hal (some a ∷ actions) s = set_outputs-same hal actions _

-- What steps 3 to 5 make of the state `s` in level `l`.
pub record Ran {W V : Type 0} (hal : Hal W V) (s : System W V) (l : ℕ) (t : System W V)
    : Type 0 where
  pub current : t.current_level ≡ some l
  pub levels : t.levels ≡ activate s.levels l
  pub bound : (k : ℕ) → AtMost s.levels k s.next_level → AtMost s.levels k t.next_level
  pub reacted : All (IsReacted hal s.world s.levels l t.next_level) (s.levels l).input_action

module _ {W V : Type 0} (hal : Hal W V) where
  IsReacted-activate :
      (w : W) (heap : Store (Level W V)) (l : ℕ) (next : Option ℕ)
      (actions : List (Option (InputAction V)))
      → All (IsReacted hal w (activate heap l) l next) actions
      → All (IsReacted hal w heap l next) actions
  IsReacted-activate w heap l next [] h = tt
  IsReacted-activate w heap l next (none ∷ actions) h =
      (tt, IsReacted-activate w heap l next actions h.1)
  IsReacted-activate w heap l next (some a ∷ actions) h = (
    λ event f. IsServed-activate heap l next (in_context event) (h.0 event f),
    IsReacted-activate w heap l next actions h.1,
  )

  IsReacted-Keeps :
      {s t u : System W V} (w : W) (l : ℕ) (actions : List (Option (InputAction V)))
      → Keeps s t
      → Keeps t u
      → All (IsReacted hal w s.levels l t.next_level) actions
      → All (IsReacted hal w s.levels l u.next_level) actions
  IsReacted-Keeps w l [] k m h = tt
  IsReacted-Keeps w l (none ∷ actions) k m h = (tt, IsReacted-Keeps w l actions k m h.1)
  IsReacted-Keeps {s} w l (some a ∷ actions) k m h = (
    λ event f n d. bound_later (rank (s.levels n).id) k m (h.0 event f n d),
    IsReacted-Keeps w l actions k m h.1,
  )

  pub run_level-Ran :
      (s : System W V) (l : ℕ)
      → s.current_level ≡ some l
      → (t : System W V) × (run_level hal s l ≡ ok t) × Ran hal s l t
  unfolding run_level
  run_level-Ran s l h =
      let s0 : System W V = record s { levels = activate s.levels l } in
      let (s1, e1, k1, r1) = check_inputs-Runs hal s0 (s.levels l).input_action l h in
      let (s2, e2, k2) = call-Runs s1 (s.levels l).action l (k1.current ∙ h) in
      let out = set_outputs-same hal (s.levels l).output_action s2 in
      let k : Keeps s0 s2 = Keeps-trans k1 k2 in
      (
        set_outputs hal s2 (s.levels l).output_action,
        rw (e1, e2),
        record {
          current = out.0 ∙ k.current ∙ h;
          levels = out.1 ∙ k.levels;
          bound = λ n b. rw (out.2) (
              AtMost-activate s.levels l n s2.next_level
                (k.bound n (AtMost-activate_back s.levels l n s.next_level b)));
          reacted =
              IsReacted-activate s.world s.levels l _ (s.levels l).input_action
                (rw (out.2) (IsReacted-Keeps s.world l (s.levels l).input_action k1 k2 r1));
        },
      )

  run-ok :
      (s s1 t : System W V) (level : Option ℕ) (l : ℕ)
      → switch_level (record s { next_level = none }) s.current_level s.next_level ≡ ok (s1, level)
      → level ≡ some l
      → run_level hal s1 l ≡ ok t
      → run hal s ≡ ok t
  unfolding run
  run-ok s s1 t level l e h e' = rw (take_next_level_lem s.next_level, e, h) e'

  -- Once a level is current or pending, a cycle runs without a fault. It ends in the pending level
  -- or else in the level where it began, and has counted one more activation of just that level and
  -- changed nothing else of the level objects.
  pub run_enters :
      (s : System W V) (l : ℕ)
      → entered s.current_level s.next_level ≡ some l
      → (t : System W V) × (run hal s ≡ ok t)
        × (t.current_level ≡ some l)
        × (t.levels ≡ activate s.levels l)
  run_enters s l h =
      let ((s1, level), e1, w) =
        switch_level-Switched (record s { next_level = none }) s.current_level s.next_level refl in
      let (t, e2, r) = run_level-Ran s1 l (w.current ∙ h) in
      (
        t,
        run-ok s s1 t level l e1 (w.local ∙ h) e2,
        r.current,
        r.levels ∙ ap (λ heap. activate heap l) w.levels,
      )

  run_idle :
      (s : System W V) (l : ℕ)
      → s.current_level ≡ some l
      → s.next_level ≡ none
      → (t : System W V) × (run hal s ≡ ok t) × Ran hal (record s { next_level = none }) l t
  unfolding switch_level
  run_idle s l h idle =
      let (t, e, r) = run_level-Ran (record s { next_level = none }) l h in
      let e1 : switch_level (record s { next_level = none }) s.current_level s.next_level
          ≡ ok (record s { next_level = none }, s.current_level) =
        rw (idle, switch_level) in
      (t, run-ok s (record s { next_level = none }) t s.current_level l e1 h e, r)

  All-at :
      {A : Type 0} (P : A → Type 0) (xs ys zs : List A) (a : A)
      → zs ≡ xs ++ (a ∷ ys)
      → All P zs
      → P a
  All-at P xs ys zs a e h = go xs (rw e at h)
    where
      go : (xs : List _) → All P (xs ++ (a ∷ ys)) → P a
      go [] h = h.0
      go (x ∷ xs) h = go xs h.1

  enter_pending :
      (s : System W V) (k : ℕ) (next : Option ℕ)
      → s.next_level ≡ next
      → AtMost s.levels k next
      → (m : ℕ) × (entered s.current_level s.next_level ≡ some m) × (rank (s.levels m).id ≤ k)
  enter_pending s k none e h = absurd h
  enter_pending s k (some m) e h = (m, rw e, h)

  -- When a condition of an input action holds at the start of a cycle that switches no level, then
  -- neither that cycle nor the next one faults, whatever events are triggered in between, and the
  -- next one ends in a level that is at most as high as the destination of the action's event.
  pub run_reacts :
      (s : System W V) (l : ℕ) (before after : List (Option (InputAction V))) (a : InputAction V)
      (event : SafetyEvent) (n : ℕ) (between : List Request)
      → s.current_level ≡ some l
      → s.next_level ≡ none
      → (s.levels l).input_action ≡ before ++ (some a ∷ after)
      → fires hal s.world a ≡ some event
      → get_dest_level_for_event (s.levels l) event true ≡ some n
      → (t : System W V) × (u : System W V) × (v : System W V) × (m : ℕ) × (run hal s ≡ ok t)
        × (make_requests t between ≡ ok u)
        × (run hal u ≡ ok v)
        × (v.current_level ≡ some m)
        × (rank (s.levels m).id ≤ rank (s.levels n).id)
  run_reacts s l before after a event n between h idle at f d =
      let (t, e, r) = run_idle s l h idle in
      let (u, e', k, _) = make_requests-Runs t between l r.current in
      let rank_n = rank (s.levels n).id in
      let reacted : AtMost s.levels rank_n t.next_level =
        All-at (IsReacted hal s.world s.levels l t.next_level) before after _ (some a) at r.reacted
          event f n d in
      let pending : AtMost u.levels rank_n u.next_level =
        subst (λ heap. AtMost heap rank_n u.next_level) (sym k.levels)
          (k.bound rank_n (
            subst (λ heap. AtMost heap rank_n t.next_level) (sym r.levels)
              (AtMost-activate_back s.levels l rank_n t.next_level reacted))) in
      let (m, enters, le) = enter_pending u rank_n u.next_level refl pending in
      let (v, e'', current, _) = run_enters u m enters in
      let same : (u.levels m).id ≡ (s.levels m).id =
        ap (λ (heap : Store (Level W V)). (heap m).id) (k.levels ∙ r.levels)
        ∙ id-activate s.levels l m in
      (t, u, v, m, e, e', e'', current, rw same at le)
