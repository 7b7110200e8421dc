-- ===== src/Controls/Words/Draw.antt =====
-- What "Put aleatório" asks for.
use atividade_consenso_raft.Base.{
  ℕ, zero, suc, ◌+◌, ◌*◌, ◌/◌, ◌<◌, String, some, List, [], ◌∷◌, ◌++◌, length, ◌≡◌, refl, ap₂,
  arith,
}
use atividade_consenso_raft.World.{World, put}
use atividade_consenso_raft.Controls.Words.{
  chaves, valores, random_parts, at?, pick, random_pair, put_random,
}

at?-some : (i : ℕ) (arr : List String) → i < length arr → (x : String) × (at? i arr ≡ some x)
unfolding at?
at?-some i [] h = absurd (omega arith)
at?-some zero (x ∷ arr) h = (x, refl)
at?-some (suc i) (x ∷ arr) h = at?-some i arr (omega arith)

index_bound : (random : ℕ) → random < random_parts → random * 30 / random_parts < 30
index_bound random h = omega arith

draw_of :
    (i : ℕ) → i < 30 → (random : ℕ) × (random < random_parts) × (random * 30 / random_parts ≡ i)
draw_of i h = ((i * random_parts + 29) / 30, omega arith, omega arith)

-- Whatever is drawn, "Put aleatório" asks for a key and a value that are words of the two lists, never
-- undefined.
pub put_random-words :
    (random_key random_value : ℕ) (w : World)
    → random_key < random_parts
    → random_value < random_parts
    → (i j : ℕ) × (i < 30)
      × (j < 30)
      × (key value : String) × (at? i chaves ≡ some key)
      × (at? j valores ≡ some value)
      × ((put_random random_key random_value w).requests
          ≡ w.requests ++ put (some key) (some value) ∷ [])
unfolding put_random random_pair pick
put_random-words random_key random_value w p q =
    let hi = index_bound random_key p in
    let hj = index_bound random_value q in
    let (key, k) = at?-some _ chaves hi in
    let (value, v) = at?-some _ valores hj in
    (_, _, hi, hj, key, value, k, v, ap₂ (λ x y. w.requests ++ put x y ∷ []) k v)

-- Each word of the keys comes with each word of the values for some draws.
pub put_random-reaches :
    (i j : ℕ) (w : World)
    → i < 30
    → j < 30
    → (random_key random_value : ℕ) × (random_key < random_parts)
      × (random_value < random_parts)
      × ((put_random random_key random_value w).requests
          ≡ w.requests ++ put (at? i chaves) (at? j valores) ∷ [])
unfolding put_random random_pair pick
put_random-reaches i j w p q =
    let (key, k, i_drawn) = draw_of i p in
    let (value, v, j_drawn) = draw_of j q in
    (
      key,
      value,
      k,
      v,
      ap₂ (λ a b. w.requests ++ put (at? a chaves) (at? b valores) ∷ []) i_drawn j_drawn,
    )
