-- ===== src/Config/RoundTrip.antt =====
-- What a configuration writes it reads back: src/config/Config.cpp.
use mathlib.Core.List.{append-nil, append_assoc}
use eeros_framework.Base.{
  ℕ, zero, suc, ◌+◌, ◌-◌, ◌≤◌, ◌<◌, ◌≡◌, refl, sym, ap, ap₂, fun_ext, ◌∙◌, Bool, false, ◌||◌, ◌&&◌,
  List, [], ◌∷◌, ◌++◌, arith, ltb, leb, ◌==◌, if◌then◌else◌, Store, update, Result, ok, ◌>>=◌,
}
use eeros_framework.Config.{
  Format, Memory, Property, number, array, text, array_text, set_text, read_pieces, fill, get_text,
}
use eeros_framework.Config.Streams.{
  Text, Without, Without-append, getlines, getlines-append, getlines_last,
}

-- A number is read back from what is printed for it, with and without a space before it, and
-- what is printed has no comma and no end of line.
pub record IsReadable {V : Type 0} (f : Format V) (v : V) : Type 0 where
  pub from_string : f.parse (b' ' ∷ f.to_string v) ≡ ok v
  pub from_put : f.parse (b' ' ∷ f.put v) ≡ ok v
  pub no_comma : Without b',' (f.put v)
  pub string_no_line : Without b'\n' (f.to_string v)
  pub put_no_line : Without b'\n' (f.put v)

-- Which cells and which texts a property refers to.
abbrev pub in_cells : {V : Type 0} → Property V → ℕ → Bool
in_cells (number f a) c = a == c
in_cells (array f len start default) c = leb start c && ltb c (start + len)
in_cells (text a) c = false

abbrev pub in_texts : {V : Type 0} → Property V → ℕ → Bool
in_texts (number f a) c = false
in_texts (array f len start default) c = false
in_texts (text a) c = a == c

-- What can be written and read back: readable numbers, at least one in an array, and a text of one
-- line.
abbrev pub IsWritable : {V : Type 0} → Memory V → Property V → Type 0
IsWritable m (number f a) = IsReadable f (m.cells a)
IsWritable m (array f len start default) =
    (0 < len) × ((c : ℕ) → start ≤ c → c < start + len → IsReadable f (m.cells c))
IsWritable m (text a) = Without b'\n' (m.texts a)

update_restored {ℓ} :
    {A : Type ℓ} (a : ℕ) (s t : Store A) → update t a (s a) ≡ (λ c. if a == c then s c else t c)
update_restored a s t = fun_ext (λ c. ground arith)

module _ {V : Type 0} where
  -- `m'` with the variables of a property as in `m`.
  abbrev pub restore : Property V → Memory V → Memory V → Memory V
  restore p m m' = record {
    cells = λ c. if in_cells p c then m.cells c else m'.cells c;
    texts = λ c. if in_texts p c then m.texts c else m'.texts c;
  }

  -- The texts of the `k` entries from index `i` on, each behind a space.
  pieces : Format V → Store V → ℕ → ℕ → List Text
  pieces f cells a zero = []
  pieces f cells a (suc k) = (b' ' ∷ f.put (cells a)) ∷ pieces f cells (suc a) k

  -- The text of the entries behind the first.
  behind : Format V → Store V → ℕ → ℕ → Text
  behind f cells a zero = []
  behind f cells a (suc k) = b',' ∷ b' ' ∷ (f.put (cells a) ++ behind f cells (suc a) k)

  behind-snoc :
      (f : Format V) (cells : Store V) (a k : ℕ)
      → behind f cells a (suc k) ≡ behind f cells a k ++ (b',' ∷ b' ' ∷ f.put (cells (a + k)))
  unfolding behind
  behind-snoc f cells a zero =
      ap (λ t. b',' ∷ b' ' ∷ t)
        (append-nil (f.put (cells a)) ∙ ap (λ c. f.put (cells c)) (omega arith))
  behind-snoc f cells a (suc k) =
      let last = λ (c : ℕ). b',' ∷ b' ' ∷ f.put (cells c) in
      ap (λ t. b',' ∷ b' ' ∷ (f.put (cells a) ++ t))
        (behind-snoc f cells (suc a) k ∙ ap (λ c. behind f cells (suc a) k ++ last c) (omega arith))
      ∙ ap (λ t. b',' ∷ b' ' ∷ t)
          (sym (append_assoc (f.put (cells a)) (behind f cells (suc a) k) (last (a + suc k))))

  array_text_step :
      (f : Format V) (cells : Store V) (start n : ℕ)
      → array_text f cells start (suc (suc n))
        ≡ (array_text f cells start (suc n) ++ (b',' ∷ b' ' ∷ [])) ++ f.put (cells (start + suc n))
  unfolding array_text
  array_text_step f cells start n = ground arith

  array_text-suc :
      (f : Format V) (cells : Store V) (start n : ℕ)
      → array_text f cells start (suc n) ≡ f.put (cells start) ++ behind f cells (suc start) n
  unfolding array_text behind
  array_text-suc f cells start zero =
      ap (λ c. f.put (cells c)) (omega arith) ∙ sym (append-nil (f.put (cells start)))
  array_text-suc f cells start (suc n) =
      let x = f.put (cells start) in
      let y = behind f cells (suc start) n in
      array_text_step f cells start n
      ∙ ap (λ t. (t ++ (b',' ∷ b' ' ∷ [])) ++ f.put (cells (start + suc n)))
          (array_text-suc f cells start n)
      ∙ append_assoc (x ++ y) (b',' ∷ b' ' ∷ []) (f.put (cells (start + suc n)))
      ∙ append_assoc x y (b',' ∷ b' ' ∷ f.put (cells (start + suc n)))
      ∙ ap (λ t. x ++ t)
          (ap (λ c. y ++ (b',' ∷ b' ' ∷ f.put (cells c))) (omega arith)
            ∙ sym (behind-snoc f cells (suc start) n))

  -- The loop reads back the pieces of an array.
  getlines-behind :
      (f : Format V) (cells : Store V) (a k : ℕ)
      → ((c : ℕ) → a ≤ c → c < a + suc k → IsReadable f (cells c))
      → getlines b',' (b' ' ∷ (f.put (cells a) ++ behind f cells (suc a) k))
        ≡ pieces f cells a (suc k)
  unfolding behind pieces
  getlines-behind f cells a zero h =
      rw append-nil (
        getlines_last b',' b' ' (f.put (cells a))
          (refl, (h a (omega arith) (omega arith)).no_comma))
  getlines-behind f cells a (suc k) h =
      getlines-append b',' (b' ' ∷ f.put (cells a)) _
        (refl, (h a (omega arith) (omega arith)).no_comma)
      ∙ ap (◌∷◌ (b' ' ∷ f.put (cells a)))
          (getlines-behind f cells (suc a) k (λ c p q. h c (omega arith) (omega arith)))

  -- `w` with the cells from `a` up to `b` as in `cells`.
  abbrev copy : Store V → Store V → ℕ → ℕ → Store V
  copy cells w a b c = if leb a c && ltb c b then cells c else w c

  read_pieces-pieces :
      (f : Format V) (cells w : Store V) (start i k : ℕ)
      → ((c : ℕ) → start + i ≤ c → c < start + i + k → IsReadable f (cells c))
      → read_pieces f start i (pieces f cells (start + i) k) w
        ≡ ok (i + k, copy cells w (start + i) (start + i + k))
  unfolding read_pieces pieces
  read_pieces-pieces f cells w start i zero h =
      ap₂ (λ j u. ok (j, u)) (omega arith) (fun_ext (λ c. ground arith))
  read_pieces-pieces f cells w start i (suc k) h =
      rw ((h (start + i) (omega arith) (omega arith)).from_put) (
        ap
          (λ a.
            read_pieces f start (i + 1) (pieces f cells a k)
              (update w (start + i) (cells (start + i))))
          (omega arith)
        ∙ read_pieces-pieces f cells (update w (start + i) (cells (start + i))) start (i + 1) k
            (λ c p q. h c (omega arith) (omega arith))
        ∙ ap₂ (λ j u. ok (j, u)) (omega arith) (fun_ext (λ c. ground arith)))

  read_array :
      (f : Format V) (cells w : Store V) (start n : ℕ)
      → ((c : ℕ) → start ≤ c → c < start + suc n → IsReadable f (cells c))
      → read_pieces f start 0 (getlines b',' (b' ' ∷ array_text f cells start (suc n))) w
        ≡ ok (suc n, copy cells w start (start + suc n))
  read_array f cells w start n h =
      ap (λ t. read_pieces f start 0 t w)
        (ap (λ t. getlines b',' (b' ' ∷ t)) (array_text-suc f cells start n)
          ∙ getlines-behind f cells start n h
          ∙ ap (λ a. pieces f cells a (suc n)) (omega arith))
      ∙ read_pieces-pieces f cells w start 0 (suc n) (λ c p q. h c (omega arith) (omega arith))
      ∙ ap (λ j. ok (j, copy cells w (start + 0) (start + 0 + suc n))) {x = 0 + suc n} (omega arith)
      ∙ ap (λ a. ok (suc n, copy cells w a (a + suc n))) {x = start + 0} (omega arith)

  -- Reading the text of a property behind a space restores its variables and nothing else.
  pub get_text-set_text :
      (p : Property V) (m m' : Memory V)
      → IsWritable m p
      → get_text p (b' ' ∷ set_text p m) m' ≡ ok (restore p m m')
  unfolding get_text set_text fill
  get_text-set_text (number f a) m m' h =
      rw h.from_string (ap (λ u. ok (record m' { cells = u })) (update_restored a m.cells m'.cells))
  get_text-set_text (array f zero start default) m m' h = absurd (omega (arith, h.0))
  get_text-set_text (array f (suc n) start default) m m' h =
      ap
        (λ (r : Result (ℕ × Store V)).
          r >>= λ p. ok (record m' { cells = fill default start p.0 (suc n - p.0) p.1 }))
        (read_array f m.cells m'.cells start n h.1)
      ∙ ap
          (λ k. ok (record m' {
            cells = fill default start (suc n) k (copy m.cells m'.cells start (start + suc n));
          }))
          {x = suc n - suc n} {y = 0} (omega arith)
  get_text-set_text (text a) m m' h =
      ap (λ u. ok (record m' { texts = u })) (update_restored a m.texts m'.texts)

  -- `m'` with the variables of all listed properties as in `m`.
  abbrev pub covers_cell : List (Text × Property V) → ℕ → Bool
  covers_cell [] c = false
  covers_cell ((name, p) ∷ ps) c = covers_cell ps c || in_cells p c

  abbrev pub covers_text : List (Text × Property V) → ℕ → Bool
  covers_text [] c = false
  covers_text ((name, p) ∷ ps) c = covers_text ps c || in_texts p c

  abbrev pub restore_all : List (Text × Property V) → Memory V → Memory V → Memory V
  restore_all ps m m' = record {
    cells = λ c. if covers_cell ps c then m.cells c else m'.cells c;
    texts = λ c. if covers_text ps c then m.texts c else m'.texts c;
  }

  pub restore_all-restore :
      (name : Text) (p : Property V) (ps : List (Text × Property V)) (m m' : Memory V)
      → restore_all ps m (restore p m m') ≡ restore_all ((name, p) ∷ ps) m m'
  restore_all-restore name p ps m m' =
      ap₂ (λ u v. record { cells = u; texts = v }) (fun_ext (λ c. ground arith))
        (fun_ext (λ c. ground arith))

  array_text-Without :
      (f : Format V) (cells : Store V) (start n : ℕ)
      → ((c : ℕ) → start ≤ c → c < start + n → IsReadable f (cells c))
      → Without b'\n' (array_text f cells start n)
  unfolding array_text
  array_text-Without f cells start zero h = tt
  array_text-Without f cells start (suc zero) h =
      (h (start + 0) (omega arith) (omega arith)).put_no_line
  array_text-Without f cells start (suc (suc n)) h = rw (array_text_step f cells start n) (
      Without-append b'\n' _ _
        (Without-append b'\n' _ _
          (array_text-Without f cells start (suc n) (λ c p q. h c p (omega arith)))
          (refl, (refl, tt)))
        (h (start + suc n) (omega arith) (omega arith)).put_no_line)

  -- A text for a property is one line.
  pub set_text-Without :
      (p : Property V) (m : Memory V) → IsWritable m p → Without b'\n' (set_text p m)
  unfolding set_text
  set_text-Without (number f a) m h = h.string_no_line
  set_text-Without (array f n start default) m h = array_text-Without f m.cells start n h.1
  set_text-Without (text a) m h = h
