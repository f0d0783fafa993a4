-- ===== src/Math/Matrix/Algebra/Product.antt =====
-- The product of matrices.
use eeros_framework.Base.{
  ℕ, zero, suc, ◌<◌, ◌≡◌, refl, sym, ap, ap₂, ◌∙◌, fun_ext, Store, update, update_self,
  update-update, for_below,
}
use eeros_framework.Math.Ring.{Ring, sum, sum_congr, mul-sum, sum-sum}
use eeros_framework.Math.Matrix.{place, cell, write_cells, transpose}
use eeros_framework.Math.Matrix.Cells.{place_inj, write_cells-hit, cell-transpose, cell-tabulate}
use eeros_framework.Math.Matrix.Algebra.{multiply, plus, scale, divide_scalar}

module _ {T : Type 0} (r : Ring T) where
  accumulate-update :
      (n p : ℕ) (f : ℕ → T) (s : Store T)
      → for_below n (λ l s. update s p (r.add (s p) (f l))) (update s p r.zero)
        ≡ update s p (sum r n f)
  accumulate-update zero p f s = refl
  accumulate-update (suc n) p f s =
      ap (λ t. update t p (r.add (t p) (f n))) (accumulate-update n p f s)
      ∙ ap (λ x. update (update s p (sum r n f)) p (r.add x (f n))) (update_self s p (sum r n f))
      ∙ update-update s p (sum r n f) (r.add (sum r n f) (f n))

  multiply-write_cells :
      (m n k : ℕ) (a b junk : Store T)
      → multiply r m n k a b junk
        ≡ write_cells m k (place m) (λ i j. sum r n (λ l. r.mul (cell m a i l) (cell n b l j))) junk
  unfolding multiply write_cells
  multiply-write_cells m n k a b junk =
      ap (λ body. for_below m (λ i s. for_below k (λ j s. body i j s) s) junk)
        (fun_ext (λ i. fun_ext (λ j.
          fun_ext
            (λ s. accumulate-update n (place m i j) (λ l. r.mul (cell m a i l) (cell n b l j)) s))))

  -- An entry of the product is the sum over the products of a row and a column.
  pub cell-multiply :
      (m n k : ℕ) (a b junk : Store T) (i j : ℕ)
      → i < m
      → j < k
      → cell m (multiply r m n k a b junk) i j ≡ sum r n (λ l. r.mul (cell m a i l) (cell n b l j))
  cell-multiply m n k a b junk i j h l =
      ap (λ s. s (place m i j)) (multiply-write_cells m n k a b junk)
      ∙ write_cells-hit m k (place m) (λ i j. sum r n (λ l. r.mul (cell m a i l) (cell n b l j)))
          junk i j (λ i' j' p q. place_inj m i' j' i j p h) h l

  pub cell-plus :
      (m n : ℕ) (a b junk : Store T) (i j : ℕ)
      → i < m
      → j < n
      → cell m (plus r m n a b junk) i j ≡ r.add (cell m a i j) (cell m b i j)
  unfolding plus
  cell-plus m n a b junk i j h k =
      cell-tabulate m n (λ i j. r.add (cell m a i j) (cell m b i j)) junk i j h k

  -- An entry that is multiplied by `x` and divided by `y`.
  pub cell-divide_scalar :
      (div : T → T → T) (m n : ℕ) (a : Store T) (x y : T) (junk : Store T) (i j : ℕ)
      → i < m
      → j < n
      → cell m (divide_scalar r div m n (scale r m n a x junk) y junk) i j
        ≡ div (r.mul (cell m a i j) x) y
  unfolding divide_scalar scale
  cell-divide_scalar div m n a x y junk i j h k =
      cell-tabulate m n (λ i j. div (cell m (scale r m n a x junk) i j) y) junk i j h k
      ∙ ap (λ z. div z y) (cell-tabulate m n (λ i j. r.mul (cell m a i j) x) junk i j h k)

  -- The transposed product of two matrices is the product of the transposed ones, in the other
  -- order.
  pub transpose-multiply :
      (m n k : ℕ) (a b junk : Store T) (i j : ℕ)
      → i < m
      → j < k
      → cell k (transpose m k (multiply r m n k a b junk) junk) j i
        ≡ cell k (multiply r k n m (transpose n k b junk) (transpose m n a junk) junk) j i
  transpose-multiply m n k a b junk i j h l =
      cell-transpose m k (multiply r m n k a b junk) junk i j h l
      ∙ cell-multiply m n k a b junk i j h l
      ∙ sum_congr r n (λ l. r.mul (cell m a i l) (cell n b l j))
          (λ l. r.mul (cell k (transpose n k b junk) j l) (cell n (transpose m n a junk) l i))
          (λ x q.
            r.mul_comm (cell m a i x) (cell n b x j)
            ∙ sym
                (ap₂ r.mul (cell-transpose n k b junk x j q l) (cell-transpose m n a junk i x h q)))
      ∙ sym (cell-multiply k n m (transpose n k b junk) (transpose m n a junk) junk j i l h)

  -- The product of matrices is associative, with the loops of the source and whatever the arrays of
  -- the results held before.
  pub multiply_assoc :
      (m n k o : ℕ) (a b c junk : Store T) (i j : ℕ)
      → i < m
      → j < o
      → cell m (multiply r m k o (multiply r m n k a b junk) c junk) i j
        ≡ cell m (multiply r m n o a (multiply r n k o b c junk) junk) i j
  multiply_assoc m n k o a b c junk i j h l =
      cell-multiply m k o (multiply r m n k a b junk) c junk i j h l
      ∙ sum_congr r k _
          (λ y. sum r n (λ x. r.mul (cell m a i x) (r.mul (cell n b x y) (cell k c y j))))
          (λ y q.
            ap (λ t. r.mul t (cell k c y j)) (cell-multiply m n k a b junk i y h q)
            ∙ r.mul_comm _ (cell k c y j)
            ∙ mul-sum r n (cell k c y j) (λ x. r.mul (cell m a i x) (cell n b x y))
            ∙ sum_congr r n _ _ (λ x p.
              r.mul_comm (cell k c y j) (r.mul (cell m a i x) (cell n b x y))
              ∙ r.mul_assoc (cell m a i x) (cell n b x y) (cell k c y j)))
      ∙ sum-sum r k n (λ y x. r.mul (cell m a i x) (r.mul (cell n b x y) (cell k c y j)))
      ∙ sum_congr r n _ (λ x. r.mul (cell m a i x) (cell n (multiply r n k o b c junk) x j))
          (λ x p.
            sym (mul-sum r k (cell m a i x) (λ y. r.mul (cell n b x y) (cell k c y j)))
            ∙ ap (r.mul (cell m a i x)) (sym (cell-multiply n k o b c junk x j p l)))
      ∙ sym (cell-multiply m n o a (multiply r n k o b c junk) junk i j h l)
