-- ===== src/Cache/Places.antt =====
-- nodes/cache_node.py: a change at one node and at all of its peers.
use tugas3_sinkronisasi_dist.Common.{
  ℕ, zero, suc, some, List, [], ◌∷◌, ◌≡◌, refl, map, All, get_elem?,
}

module _ {A : Type 0} where
  -- `f` at one position, and `g` at all others.
  unfoldable pub at_and_others : ℕ → (f g : A → A) → List A → List A
  at_and_others i f g [] = []
  at_and_others zero f g (x ∷ xs) = f x ∷ map g xs
  at_and_others (suc i) f g (x ∷ xs) = g x ∷ at_and_others i f g xs

  All-map :
      (P Q : A → Type 0) (g : A → A) (xs : List A)
      → ((x : A) → Q x → P (g x))
      → All Q xs
      → All P (map g xs)
  All-map P Q g [] h q = tt
  All-map P Q g (x ∷ xs) h q = (h x q.0, All-map P Q g xs h q.1)

  -- What holds of the changed node and of each changed peer holds of all nodes.
  pub All-at_and_others :
      (P Q : A → Type 0) (i : ℕ) (f g : A → A) (xs : List A)
      → ((x : A) → get_elem? xs i ≡ some x → Q x → P (f x))
      → ((x : A) → Q x → P (g x))
      → All Q xs
      → All P (at_and_others i f g xs)
  unfolding at_and_others
  All-at_and_others P Q i f g [] self peer q = tt
  All-at_and_others P Q zero f g (x ∷ xs) self peer q = (self x refl q.0, All-map P Q g xs peer q.1)
  All-at_and_others P Q (suc i) f g (x ∷ xs) self peer q =
      (peer x q.0, All-at_and_others P Q i f g xs self peer q.1)

  pub All-imp : (P Q : A → Type 0) (xs : List A) → ((x : A) → P x → Q x) → All P xs → All Q xs
  All-imp P Q [] h p = tt
  All-imp P Q (x ∷ xs) h p = (h x p.0, All-imp P Q xs h p.1)

  pub All-both : (P Q : A → Type 0) (xs : List A) → All P xs → All Q xs → All (λ x. P x × Q x) xs
  All-both P Q [] p q = tt
  All-both P Q (x ∷ xs) p q = ((p.0, q.0), All-both P Q xs p.1 q.1)
