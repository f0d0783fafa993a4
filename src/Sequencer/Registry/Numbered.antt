-- ===== src/Sequencer/Registry/Numbered.antt =====
-- The sequences are found by their names and by their numbers.
use Prim.Native.String.{String}
use text.Mathlib.Text.{◌==◌ as str_eq}
use text.Mathlib.TextPositions.{eq_refl}
use eeros_framework.Base.{
  ℕ, zero, suc, ◌+◌, ◌≡◌, refl, sym, ap, ◌∙◌, subst, arith, ◌==◌, ==_iff, ◌⊎◌, length-append, true,
  false, Bool-cases, inl, inr, Option-cases, none, some, List, [], ◌∷◌, ◌++◌, if◌then◌else◌, Result,
  ok, throw, no_name, name_exists, length, get_elem?,
}
use eeros_framework.Sequencer.Registry.{
  Entry, Sequencer, create, add_sequence, find_id, find_name, get_sequence_by_id,
  get_sequence_by_name, clear_list, single_stepping, step, restart, new_sequence, Call, call_new,
  call_clear, call_stepping, call_step, call_restart, kept, call, calls,
}

-- The numbers are the positions in the list, and each name finds the sequence that has it.
record IsNumbered (es : List Entry) (n : ℕ) : Type 0 where
  count : n ≡ length es
  numbers : (i : ℕ) (e : Entry) → get_elem? es i ≡ some e → e.id ≡ i
  names : (i : ℕ) (e : Entry) → get_elem? es i ≡ some e → find_name e.name es ≡ some e.address

get_elem?-snoc :
    (es : List Entry) (e : Entry) (i : ℕ)
    → get_elem? (es ++ (e ∷ [])) i ≡ (if i == length es then some e else get_elem? es i)
get_elem?-snoc [] e zero = refl
get_elem?-snoc [] e (suc i) = ground arith
get_elem?-snoc (x ∷ xs) e zero = ground arith
get_elem?-snoc (x ∷ xs) e (suc i) = ground (arith, get_elem?-snoc xs e i)

shift_one : (n i : ℕ) → n + 1 + i ≡ n + suc i
shift_one n i = omega arith

find_name-snoc :
    (name : String) (es : List Entry) (e : Entry) (a : ℕ)
    → find_name name es ≡ some a
    → find_name name (es ++ (e ∷ [])) ≡ some a
unfolding find_name
find_name-snoc name [] e a h = absurd (cc)
find_name-snoc name (x ∷ xs) e a h = ground (arith, find_name-snoc name xs e a)

find_name-last :
    (es : List Entry) (e : Entry)
    → find_name e.name es ≡ none
    → find_name e.name (es ++ (e ∷ [])) ≡ some e.address
unfolding find_name
find_name-last [] e h = rw (eq_refl e.name) refl
find_name-last (x ∷ xs) e h = ground (arith, find_name-last xs e)

snoc_cases :
    (es : List Entry) (e f : Entry) (i : ℕ)
    → get_elem? (es ++ (e ∷ [])) i ≡ some f
    → ((e ≡ f) × (i ≡ length es)) ⊎ (get_elem? es i ≡ some f)
snoc_cases es e f i m = elim (Bool-cases (i == length es)) [
  | inl c ↦
      let at_end : some e ≡ some f = sym (get_elem?-snoc es e i ∙ rw c refl) ∙ m in
      inl (cc, (==_iff i (length es)).0 c)
  | inr c ↦ inr (sym (get_elem?-snoc es e i ∙ rw c refl) ∙ m)
]

add-IsNumbered :
    (es : List Entry) (e : Entry) (n : ℕ)
    → find_name e.name es ≡ none
    → e.id ≡ n
    → IsNumbered es n
    → IsNumbered (es ++ (e ∷ [])) (n + 1)
add-IsNumbered es e n h k p = record {
  count = omega (arith, p.count, length-append es (e ∷ []));
  numbers = λ i f m. elim (snoc_cases es e f i m) [
    | inl (same, last) ↦ ap (λ (g : Entry). g.id) (sym same) ∙ k ∙ p.count ∙ sym last
    | inr old ↦ p.numbers i f old
  ];
  names = λ i f m. elim (snoc_cases es e f i m) [
    | inl (same, last) ↦
        subst (λ (g : Entry). find_name g.name (es ++ (e ∷ [])) ≡ some g.address) same
          (find_name-last es e h)
    | inr old ↦ find_name-snoc f.name es e f.address (p.names i f old)
  ];
}

new_sequence_refused :
    (name : String) (address : ℕ) (s : Sequencer)
    → str_eq name "" ≡ true
    → new_sequence name address s ≡ throw no_name
unfolding new_sequence
new_sequence_refused name address s e = rw e refl

new_sequence_taken :
    (name : String) (address a : ℕ) (s : Sequencer)
    → str_eq name "" ≡ false
    → find_name name s.sequence_list ≡ some a
    → new_sequence name address s ≡ throw name_exists
unfolding new_sequence
new_sequence_taken name address a s e f = rw (e, f) refl

new_sequence_made :
    (name : String) (address : ℕ) (s : Sequencer)
    → str_eq name "" ≡ false
    → find_name name s.sequence_list ≡ none
    → new_sequence name address s ≡ ok (add_sequence name address s)
unfolding new_sequence
new_sequence_made name address s e f = rw (e, f) refl

abbrev IsOrdered : Sequencer → Type 0
IsOrdered s = IsNumbered s.sequence_list s.sequence_count

kept-IsOrdered :
    (s : Sequencer) {r r' : Result Sequencer}
    → r ≡ r'
    → IsOrdered (kept s r')
    → IsOrdered (kept s r)
kept-IsOrdered s e p = subst (λ r. IsOrdered (kept s r)) (sym e) p

add_sequence-IsOrdered :
    (name : String) (address : ℕ) (s : Sequencer)
    → find_name name s.sequence_list ≡ none
    → IsOrdered s
    → IsOrdered (add_sequence name address s)
unfolding add_sequence
add_sequence-IsOrdered name address s f p =
    add-IsNumbered s.sequence_list
      (record { name = name; address = address; id = s.sequence_count }) s.sequence_count f refl p

new-IsOrdered :
    (name : String) (address : ℕ) (s : Sequencer)
    → IsOrdered s
    → IsOrdered (kept s (new_sequence name address s))
new-IsOrdered name address s p = elim (Bool-cases (str_eq name "")) [
  | inl e ↦ kept-IsOrdered s (new_sequence_refused name address s e) p
  | inr e ↦ elim (Option-cases (find_name name s.sequence_list)) [
    | inl f ↦
        kept-IsOrdered s (new_sequence_made name address s e f)
          (add_sequence-IsOrdered name address s f p)
    | inr (a, f) ↦ kept-IsOrdered s (new_sequence_taken name address a s e f) p
  ]
]

empty-IsNumbered : IsNumbered [] 0
empty-IsNumbered = record {
  count = refl;
  numbers = λ i e m. absurd (cc);
  names = λ i e m. absurd (cc);
}

call-IsOrdered : (c : Call) (s : Sequencer) → IsOrdered s → IsOrdered (call c s)
unfolding call clear_list single_stepping step restart
call-IsOrdered (call_new name address) s p = new-IsOrdered name address s p
call-IsOrdered call_clear s p = empty-IsNumbered
call-IsOrdered call_stepping s p = p
call-IsOrdered call_step s p = p
call-IsOrdered call_restart s p = p

calls-IsOrdered : (cs : List Call) (s : Sequencer) → IsOrdered s → IsOrdered (calls cs s)
unfolding calls
calls-IsOrdered [] s p = p
calls-IsOrdered (c ∷ cs) s p = calls-IsOrdered cs (call c s) (call-IsOrdered c s p)

find_id-at :
    (es : List Entry) (n i : ℕ) (e : Entry)
    → ((j : ℕ) (f : Entry) → get_elem? es j ≡ some f → f.id ≡ n + j)
    → get_elem? es i ≡ some e
    → find_id (n + i) es ≡ some e.address
unfolding find_id
find_id-at [] n i e h m = absurd (cc)
find_id-at (x ∷ xs) n zero e h m =
    let same : x ≡ e = cc in ground (arith, h 0 x refl, ap (λ (g : Entry). g.address) same)
find_id-at (x ∷ xs) n (suc i) e h m =
    let later = find_id-at xs (n + 1) i e (λ j f k. h (suc j) f k ∙ omega arith) m in
    ground (arith, h 0 x refl, ap (λ k. find_id k xs) (shift_one n i), later)

-- Whatever sequences are made, with any names, and however often the list is cleared, the sequence
-- at position `i` of the list is found by the number `i` and by its name.
pub get_sequence-calls :
    (cs : List Call) (i : ℕ) (e : Entry)
    → let s = calls cs create in
      get_elem? s.sequence_list i ≡ some e
      → (e.id ≡ i)
        × (get_sequence_by_id i s ≡ some e.address)
        × (get_sequence_by_name e.name s ≡ some e.address)
unfolding get_sequence_by_id get_sequence_by_name create
get_sequence-calls cs i e m =
    let p = calls-IsOrdered cs create empty-IsNumbered in
    (
      p.numbers i e m,
      ap (λ k. find_id k (calls cs create).sequence_list) (omega arith)
          ∙ find_id-at (calls cs create).sequence_list 0 i e
              (λ j f k. p.numbers j f k ∙ omega arith) m,
      p.names i e m,
    )
