-- ===== src/Dict.antt =====
-- Python's `dict`, in insertion order, over keys with equality: `d.get(k)`, `d[k] = v`,
-- `d.pop(k, None)`, `k in d`.
use email_security_gateway.Prelude.{
  ◌≡◌, refl, ◌≢◌, Bool, true, false, Option, none, some, List, [], ◌∷◌, arith, Eq, ◌==◌, is_some,
  if◌then◌else◌,
}

abbrev pub Dict {ℓ κ} : Type ℓ → Type κ → Type (ℓ ⊔ κ)
Dict K V = List (K × V)

module _ {ℓ κ} {K : Type ℓ} {V : Type κ} ⦃e : Eq K⦄ where
  unfoldable pub get : Dict K V → K → Option V
  get [] k = none
  get ((j, v) ∷ d) k = if j == k then some v else get d k

  unfoldable pub put : Dict K V → K → V → Dict K V
  put [] k v = (k, v) ∷ []
  put ((j, w) ∷ d) k v = if j == k then (j, v) ∷ d else (j, w) ∷ put d k v

  -- Every entry of the key goes; there is one at most in a dictionary that `put` has built.
  unfoldable pub remove : Dict K V → K → Dict K V
  remove [] k = []
  remove ((j, w) ∷ d) k = let rest = remove d k in if j == k then rest else (j, w) ∷ rest

  abbrev pub contains : Dict K V → K → Bool
  contains d k = is_some (get d k)

  pub get-put :
      (d : Dict K V) (k j : K) (v : V) → get (put d k v) j ≡ (if k == j then some v else get d j)
  unfolding get put
  get-put [] k j v = refl
  get-put ((i, w) ∷ d) k j v =
      ground (arith, e.beq_iff k j, e.beq_iff i k, e.beq_iff i j, get-put d k j v)

  pub get-remove :
      (d : Dict K V) (k j : K) → get (remove d k) j ≡ (if k == j then none else get d j)
  unfolding get remove
  get-remove [] k j = ground arith
  get-remove ((i, w) ∷ d) k j =
      ground (arith, e.beq_iff k j, e.beq_iff i k, e.beq_iff i j, get-remove d k j)

module _ {ℓ} {K : Type ℓ} ⦃e : Eq K⦄ where
  pub ==-refl : (k : K) → (k == k) ≡ true
  ==-refl k = (e.beq_iff k k).1 refl

  pub ==-ne : {k j : K} → k ≢ j → (k == j) ≡ false
  ==-ne {k} {j} h = ground (arith, e.beq_iff k j)

module _ {ℓ κ} {K : Type ℓ} {V : Type κ} ⦃e : Eq K⦄ where
  pub get-put_same : (d : Dict K V) (k : K) (v : V) → get (put d k v) k ≡ some v
  get-put_same d k v = rw (get-put d k k v, ==-refl k) refl

  pub get-put_other : (d : Dict K V) (k j : K) (v : V) → k ≢ j → get (put d k v) j ≡ get d j
  get-put_other d k j v h = rw (get-put d k j v, ==-ne h) refl

pub ruleset dict_laws = (get-put, get-remove, ==-refl)
