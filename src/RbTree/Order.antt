-- ===== src/RbTree/Order.antt =====
-- The order of the nodes: sorted lists of addresses, and the insertion into one.
use mathlib.Core.List.{append_assoc, append-nil}
use mtcp_lua.Base.{
  ℕ, ◌≤◌, ◌<◌, ◌≡◌, sym, ◌∙◌, List, [], ◌∷◌, ◌++◌, arith, ltb, if◌then◌else◌, Bool-cases, inl, inr,
}
use mtcp_lua.RbTree.{Ptr, left, right}
use mtcp_lua.RbTree.Shape.{Tree, node, Place, top, under, plug, inorder}

abbrev pub All {ℓ κ} : {A : Type ℓ} → (A → Type κ) → List A → Type κ
All P [] = Unit
All P (x ∷ xs) = P x × All P xs

pub All-append_left {ℓ κ} :
    {A : Type ℓ} (P : A → Type κ) (xs ys : List A) → All P (xs ++ ys) → All P xs
All-append_left P [] ys h = tt
All-append_left P (x ∷ xs) ys h = (h.0, All-append_left P xs ys h.1)

pub All-append_right {ℓ κ} :
    {A : Type ℓ} (P : A → Type κ) (xs ys : List A) → All P (xs ++ ys) → All P ys
All-append_right P [] ys h = h
All-append_right P (x ∷ xs) ys h = All-append_right P xs ys h.1

pub All-append {ℓ κ} :
    {A : Type ℓ} (P : A → Type κ) (xs ys : List A) → All P xs → All P ys → All P (xs ++ ys)
All-append P [] ys h k = k
All-append P (x ∷ xs) ys h k = (h.0, All-append P xs ys h.1 k)

pub All-mono {ℓ κ} :
    {A : Type ℓ} (P Q : A → Type κ) (xs : List A) → ((x : A) → P x → Q x) → All P xs → All Q xs
All-mono P Q [] f h = tt
All-mono P Q (x ∷ xs) f h = (f x h.0, All-mono P Q xs f h.1)

-- The nodes to the left and to the right of a place.
abbrev pub before : Place → List Ptr
before top = []
before (under left c p w k) = before k
before (under right c p w k) = before k ++ inorder w ++ p ∷ []

abbrev pub after : Place → List Ptr
after top = []
after (under left c p w k) = p ∷ inorder w ++ after k
after (under right c p w k) = after k

pub inorder-plug : (x : Tree) (k : Place) → inorder (plug x k) ≡ before k ++ inorder x ++ after k
inorder-plug x top = sym (append-nil (inorder x))
inorder-plug x (under left c p w k) = inorder-plug (node c p x w) k ∙ simp append_assoc
inorder-plug x (under right c p w k) = inorder-plug (node c p w x) k ∙ simp append_assoc

-- Two trees with the same nodes in the same order can be exchanged at a place.
pub inorder-plug_eq :
    (x y : Tree) (k : Place) → inorder x ≡ inorder y → inorder (plug x k) ≡ inorder (plug y k)
inorder-plug_eq x y k e = rw (inorder-plug x k, inorder-plug y k, e)

module _ (f : Ptr → ℕ) where
  -- No node comes before one of smaller value.
  abbrev pub Sorted : List Ptr → Type 0
  Sorted [] = Unit
  Sorted (p ∷ ps) = All (λ q. f p ≤ f q) ps × Sorted ps

  pub Sorted-left : (xs ys : List Ptr) → Sorted (xs ++ ys) → Sorted xs
  Sorted-left [] ys h = tt
  Sorted-left (x ∷ xs) ys h = (All-append_left (λ q. f x ≤ f q) xs ys h.0, Sorted-left xs ys h.1)

  pub Sorted-right : (xs ys : List Ptr) → Sorted (xs ++ ys) → Sorted ys
  Sorted-right [] ys h = h
  Sorted-right (x ∷ xs) ys h = Sorted-right xs ys h.1

  pub Sorted-below :
      (xs : List Ptr) (p : Ptr) (ys : List Ptr) → Sorted (xs ++ p ∷ ys) → All (λ q. f q ≤ f p) xs
  Sorted-below [] p ys h = tt
  Sorted-below (x ∷ xs) p ys h =
      ((All-append_right (λ q. f x ≤ f q) xs (p ∷ ys) h.0).0, Sorted-below xs p ys h.1)

  -- The node `n` of value `v` goes behind the last node whose value is not greater.
  unfoldable pub insert_sorted : Ptr → ℕ → List Ptr → List Ptr
  insert_sorted n v [] = n ∷ []
  insert_sorted n v (p ∷ ps) = if ltb v (f p) then n ∷ p ∷ ps else p ∷ insert_sorted n v ps

  pub insert_sorted_left :
      (n : Ptr) (v : ℕ) (xs : List Ptr) (p : Ptr) (ys : List Ptr)
      → v < f p
      → insert_sorted n v (xs ++ p ∷ ys) ≡ insert_sorted n v xs ++ p ∷ ys
  unfolding insert_sorted
  insert_sorted_left n v [] p ys h = ground arith
  insert_sorted_left n v (x ∷ xs) p ys h = ground (arith, insert_sorted_left n v xs p ys h)

  pub insert_sorted_right :
      (n : Ptr) (v : ℕ) (xs : List Ptr) (p : Ptr) (ys : List Ptr)
      → f p ≤ v
      → All (λ q. f q ≤ f p) xs
      → insert_sorted n v (xs ++ p ∷ ys) ≡ xs ++ p ∷ insert_sorted n v ys
  unfolding insert_sorted
  insert_sorted_right n v [] p ys h a = ground arith
  insert_sorted_right n v (x ∷ xs) p ys h a = ground (arith, insert_sorted_right n v xs p ys h a.1)

  All-insert_sorted :
      (n : Ptr) (v : ℕ) (b : ℕ) (xs : List Ptr)
      → b ≤ f n
      → All (λ q. b ≤ f q) xs
      → All (λ q. b ≤ f q) (insert_sorted n v xs)
  unfolding insert_sorted
  All-insert_sorted n v b [] h a = (h, tt)
  All-insert_sorted n v b (x ∷ xs) h a = ground (arith, All-insert_sorted n v b xs h a.1)

  -- An insertion of a node at its own value keeps a list sorted.
  pub insert_sorted-Sorted :
      (n : Ptr) (xs : List Ptr) → Sorted xs → Sorted (insert_sorted n (f n) xs)
  unfolding insert_sorted
  insert_sorted-Sorted n [] h = (tt, tt)
  insert_sorted-Sorted n (x ∷ xs) h = elim (Bool-cases (ltb (f n) (f x))) [
    | inl e ↦
        let le : f n ≤ f x = ground arith in
        rw e ((le, All-mono (λ q. f x ≤ f q) (λ q. f n ≤ f q) xs (λ q l. omega arith) h.0), h)
    | inr e ↦
        let le : f x ≤ f n = ground arith in
        rw e (All-insert_sorted n (f n) (f x) xs le h.0, insert_sorted-Sorted n xs h.1)
  ]
