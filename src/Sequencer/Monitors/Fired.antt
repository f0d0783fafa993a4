-- ===== src/Sequencer/Monitors/Fired.antt =====
-- What the second loop of `checkMonitors` does to the sequences of the caller stack.
use eeros_framework.Base.{
  ℕ, ◌≡◌, refl, ap, fun_ext, ◌∙◌, Bool, true, false, ◌||◌, List, [], ◌∷◌, ◌++◌, ◌==◌, Store, update,
  ==_iff, if◌then◌else◌, All, Bool-cases, inl, inr,
}
use eeros_framework.Sequencer.Monitors.{SequenceProp, BaseSequence, aborting, stops, handle_callers}

abbrev halt : BaseSequence → BaseSequence
halt s = record s { state = aborting }

abbrev elem : ℕ → List ℕ → Bool
elem q [] = false
elem q (s ∷ ss) = (s == q) || elem q ss

-- The store with every sequence of the list aborting.
abbrev pub set_aborting : List ℕ → Store BaseSequence → Store BaseSequence
set_aborting ss h q = if elem q ss then halt (h q) else h q

updated :
    (s q : ℕ) (h : Store BaseSequence)
    → update h s (halt (h s)) q ≡ (if s == q then halt (h q) else h q)
updated s q h = elim (Bool-cases (s == q)) [
  | inl e ↦ rw e (ap (λ p. halt (h p)) ((==_iff s q).0 e))
  | inr n ↦ rw n refl
]

merge :
    (b c : Bool) (y : BaseSequence)
    → (if c then halt (if b then halt y else y) else (if b then halt y else y))
      ≡ (if b || c then halt y else y)
merge true true y = refl
merge true false y = refl
merge false true y = refl
merge false false y = refl

set_aborting-update :
    (s : ℕ) (ss : List ℕ) (h : Store BaseSequence)
    → set_aborting ss (update h s (halt (h s))) ≡ set_aborting (s ∷ ss) h
set_aborting-update s ss h = fun_ext (λ q.
    ap (λ x. if elem q ss then halt x else x) (updated s q h) ∙ merge (s == q) (elem q ss) (h q))

halt-fired :
    (s q : ℕ) (h : Store BaseSequence)
    → (update h s (halt (h s)) q).monitor_fired ≡ (h q).monitor_fired
halt-fired s q h = ap (λ (x : BaseSequence). x.monitor_fired) (updated s q h) ∙ same (s == q)
  where
    same : (b : Bool) → (if b then halt (h q) else h q).monitor_fired ≡ (h q).monitor_fired
    same true = refl
    same false = refl

none_fired-halt :
    (s : ℕ) (ss : List ℕ) (h : Store BaseSequence)
    → All (λ q. (h q).monitor_fired ≡ false) ss
    → All (λ q. (update h s (halt (h s)) q).monitor_fired ≡ false) ss
none_fired-halt s [] h a = tt
none_fired-halt s (q ∷ ss) h a = (halt-fired s q h ∙ a.0, none_fired-halt s ss h a.1)

pub handle_callers-keeps :
    (prop : SequenceProp) (ss : List ℕ) (h : Store BaseSequence)
    → stops prop ≡ false
    → handle_callers prop ss h ≡ h
unfolding handle_callers
handle_callers-keeps prop [] h k = refl
handle_callers-keeps prop (s ∷ ss) h k = rw k (
    ap (λ x. if (h s).monitor_fired then h else x) (handle_callers-keeps prop ss h k)
    ∙ same (h s).monitor_fired)
  where
    same : (b : Bool) → (if b then h else h) ≡ h
    same true = refl
    same false = refl

handle_callers-one :
    (prop : SequenceProp) (s : ℕ) (ss : List ℕ) (h : Store BaseSequence)
    → stops prop ≡ true
    → (h s).monitor_fired ≡ false
    → handle_callers prop (s ∷ ss) h ≡ handle_callers prop ss (update h s (halt (h s)))
unfolding handle_callers
handle_callers-one prop s ss h st f = rw (f, st) refl

pub handle_callers-stops :
    (prop : SequenceProp) (before after : List ℕ) (o : ℕ) (h : Store BaseSequence)
    → stops prop ≡ true
    → All (λ s. (h s).monitor_fired ≡ false) before
    → (h o).monitor_fired ≡ true
    → handle_callers prop (before ++ (o ∷ after)) h ≡ set_aborting before h
unfolding handle_callers
handle_callers-stops prop [] after o h st q f = rw f refl
handle_callers-stops prop (s ∷ ss) after o h st q f =
    handle_callers-one prop s _ h st q.0
    ∙ handle_callers-stops prop ss after o (update h s (halt (h s))) st (none_fired-halt s ss h q.1)
        (halt-fired s o h ∙ f)
    ∙ set_aborting-update s ss h
