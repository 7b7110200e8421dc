-- ===== src/Base/Separators.antt =====
-- Texts put together from parts with a separator between them.
use Prim.Native.Char.{Char, code}
use Prim.Native.String.{String, ◌∷◌ as ◌∷ₛ◌, ◌++◌ as ◌++ₛ◌}
use Prim.Native.String.append
use mathlib.Core.Path.{◌≡◌, refl, ap, ap₂, sym, subst, ◌∙◌}
use mathlib.Core.Bool.{Bool, true, false, not, ◌&&◌}
use mathlib.Core.Logic.{◌⊎◌, inl, inr}
use mathlib.Core.List.{List, [], ◌∷◌, map}
use native.Mathlib.Omega.{arith}
use text.Mathlib.TextLemmas.{append_cancel_left, append-nil, append_assoc, nil≢cons}
use atividade_consenso_raft.Base.Lists.{All}
use atividade_consenso_raft.Base.Tests.{nat_beq}

-- A template literal: its pieces, one after another.
unfoldable pub concat : List String → String
concat [] = ""
concat (s ∷ ss) = s ++ₛ concat ss

-- A text in which this character does not stand.
unfoldable pub without : Char → String → Bool
without c String.[] = true
without c (d ∷ₛ s) = not (nat_beq (code d) (code c)) && without c s

code_refl : (c : Char) → nat_beq (code c) (code c) ≡ true
code_refl c = ground arith

-- If a character does not stand in the parts before it, a text is cut there in one way only.
pub cut_unique :
    (c : Char) (a b a' b' : String)
    → without c a ≡ true
    → without c a' ≡ true
    → a ++ₛ (c ∷ₛ b) ≡ a' ++ₛ (c ∷ₛ b')
    → (a ≡ a') × (b ≡ b')
unfolding without
cut_unique c String.[] b String.[] b' p q h =
    let e : c ∷ₛ b ≡ c ∷ₛ b' = sym (append.nil (c ∷ₛ b)) ∙ h ∙ append.nil (c ∷ₛ b') in (refl, cc)
cut_unique c String.[] b (y ∷ₛ a') b' p q h =
    let e : c ∷ₛ b ≡ y ∷ₛ (a' ++ₛ (c ∷ₛ b')) =
      sym (append.nil (c ∷ₛ b)) ∙ h ∙ append.cons y a' (c ∷ₛ b') in
    let same : c ≡ y = cc in
    let seen : nat_beq (code y) (code c) ≡ true =
      subst (λ z. nat_beq (code z) (code c) ≡ true) same (code_refl c) in
    ground arith
cut_unique c (x ∷ₛ a) b String.[] b' p q h =
    let e : x ∷ₛ (a ++ₛ (c ∷ₛ b)) ≡ c ∷ₛ b' =
      sym (append.cons x a (c ∷ₛ b)) ∙ h ∙ append.nil (c ∷ₛ b') in
    let same : c ≡ x = cc in
    let seen : nat_beq (code x) (code c) ≡ true =
      subst (λ z. nat_beq (code z) (code c) ≡ true) same (code_refl c) in
    ground arith
cut_unique c (x ∷ₛ a) b (y ∷ₛ a') b' p q h =
    let e : x ∷ₛ (a ++ₛ (c ∷ₛ b)) ≡ y ∷ₛ (a' ++ₛ (c ∷ₛ b')) =
      sym (append.cons x a (c ∷ₛ b)) ∙ h ∙ append.cons y a' (c ∷ₛ b') in
    let (same, rest) = cut_unique c a b a' b' (ground arith) (ground arith) (cc) in (cc, rest)

-- The same for a separator of several characters, of which the first is `c`.
pub part_unique :
    (c : Char) (sep a b a' b' : String)
    → without c a ≡ true
    → without c a' ≡ true
    → a ++ₛ ((c ∷ₛ sep) ++ₛ b) ≡ a' ++ₛ ((c ∷ₛ sep) ++ₛ b')
    → (a ≡ a') × (b ≡ b')
part_unique c sep a b a' b' p q h =
    let (front, back) =
      cut_unique c a (sep ++ₛ b) a' (sep ++ₛ b') p q
        (ap (a ++ₛ◌) (sym (append.cons c sep b)) ∙ h ∙ ap (a' ++ₛ◌) (append.cons c sep b')) in
    (front, append_cancel_left sep b b' back)

pub without-append : (c : Char) (a b : String) → without c (a ++ₛ b) ≡ (without c a && without c b)
unfolding without
without-append c String.[] b = ap (without c) (append.nil b)
without-append c (x ∷ₛ a) b =
    ap (without c) (append.cons x a b) ∙ ground (arith, without-append c a b)

without-sep : (c : Char) (sep a b : String) → without c (a ++ₛ ((c ∷ₛ sep) ++ₛ b)) ≡ false
unfolding without
without-sep c sep a b =
    rw (append.cons c sep b, without-append c a (c ∷ₛ (sep ++ₛ b))) (ground (arith, code_refl c))

-- A text that is empty or begins with this character.
abbrev pub Behind : Char → String → Type 0
Behind c x = (x ≡ "") ⊎ ((r : String) × (x ≡ c ∷ₛ r))

without-cut : (c : Char) (a r : String) → without c (a ++ₛ (c ∷ₛ r)) ≡ false
unfolding without
without-cut c a r = rw (without-append c a (c ∷ₛ r)) (ground (arith, code_refl c))

-- A part and what stands behind it, if that is empty or begins with the separator.
pub tail_unique :
    (c : Char) (a x b y : String)
    → without c a ≡ true
    → without c b ≡ true
    → Behind c x
    → Behind c y
    → a ++ₛ x ≡ b ++ₛ y
    → (a ≡ b) × (x ≡ y)
tail_unique c a x b y p q (inl u) (inl v) h =
    (sym (append-nil a) ∙ ap (a ++ₛ◌) (sym u) ∙ h ∙ ap (b ++ₛ◌) v ∙ append-nil b, u ∙ sym v)
tail_unique c a x b y p q (inl u) (inr (r, v)) h =
    let same : a ≡ b ++ₛ (c ∷ₛ r) = sym (append-nil a) ∙ ap (a ++ₛ◌) (sym u) ∙ h ∙ ap (b ++ₛ◌) v in
    let seen : without c a ≡ false = ap (without c) same ∙ without-cut c b r in
    absurd (ground arith)
tail_unique c a x b y p q (inr (r, u)) (inl v) h =
    let same : b ≡ a ++ₛ (c ∷ₛ r) =
      sym (append-nil b) ∙ ap (b ++ₛ◌) (sym v) ∙ sym h ∙ ap (a ++ₛ◌) u in
    let seen : without c b ≡ false = ap (without c) same ∙ without-cut c a r in
    absurd (ground arith)
tail_unique c a x b y p q (inr (r, u)) (inr (r', v)) h =
    let (front, back) = cut_unique c a r b r' p q (ap (a ++ₛ◌) (sym u) ∙ h ∙ ap (b ++ₛ◌) v) in
    (front, u ∙ ap (c ∷ₛ◌) back ∙ sym v)

pub concat-one : (a : String) → concat (a ∷ []) ≡ a
unfolding concat
concat-one a = append-nil a

pub concat-literal :
    (c : Char) (sep : String) (ss : List String) → concat ((c ∷ₛ sep) ∷ ss) ≡ c ∷ₛ concat (sep ∷ ss)
unfolding concat
concat-literal c sep ss = append.cons c sep (concat ss)

-- The same beginning can be taken away.
pub concat_cancel : (a b b' : String) → concat (a ∷ b ∷ []) ≡ concat (a ∷ b' ∷ []) → b ≡ b'
unfolding concat
concat_cancel a b b' h =
    sym (append-nil b) ∙ append_cancel_left a (b ++ₛ "") (b' ++ₛ "") h ∙ append-nil b'

-- `parts.join(sep)`
unfoldable pub join : String → List String → String
join sep [] = ""
join sep (x ∷ []) = x
join sep (x ∷ y ∷ xs) = x ++ₛ (sep ++ₛ join sep (y ∷ xs))

-- If the first character of the separator does not stand in the parts, the joined text shows them,
-- unless there are none.
pub join_injective :
    (c : Char) (sep x y : String) (xs ys : List String)
    → All (λ s. without c s ≡ true) (x ∷ xs)
    → All (λ s. without c s ≡ true) (y ∷ ys)
    → join (c ∷ₛ sep) (x ∷ xs) ≡ join (c ∷ₛ sep) (y ∷ ys)
    → Path (List String) (x ∷ xs) (y ∷ ys)
unfolding join
join_injective c sep x y [] [] p q h = ap (λ s. s ∷ []) h
join_injective c sep x y [] (y' ∷ ys) p q h =
    let seen : without c x ≡ false =
      ap (without c) h ∙ without-sep c sep y (join (c ∷ₛ sep) (y' ∷ ys)) in
    absurd (ground arith)
join_injective c sep x y (x' ∷ xs) [] p q h =
    let seen : without c y ≡ false =
      ap (without c) (sym h) ∙ without-sep c sep x (join (c ∷ₛ sep) (x' ∷ xs)) in
    absurd (ground arith)
join_injective c sep x y (x' ∷ xs) (y' ∷ ys) p q h =
    let (front, back) =
      part_unique c sep x (join (c ∷ₛ sep) (x' ∷ xs)) y (join (c ∷ₛ sep) (y' ∷ ys)) p.0 q.0 h in
    ap₂ (λ s ss. s ∷ ss) front (join_injective c sep x' y' xs ys p.1 q.1 back)

pub without-join :
    (c : Char) (sep : String) (xs : List String)
    → without c sep ≡ true
    → All (λ s. without c s ≡ true) xs
    → without c (join sep xs) ≡ true
unfolding join without
without-join c sep [] h p = refl
without-join c sep (x ∷ []) h p = p.0
without-join c sep (x ∷ y ∷ xs) h p =
    rw (without-append c x (sep ++ₛ join sep (y ∷ xs)), without-append c sep (join sep (y ∷ xs)))
      (ground (arith, p.0, without-join c sep (y ∷ xs) h p.1))

-- A part between brackets, of which the last is one character.
unfoldable pub bracketed : String → Char → String → String
unfolding concat
bracketed front c a = concat (front ∷ a ∷ (c ∷ₛ "") ∷ [])

-- If the last bracket does not stand in the part, the part is seen.
bracketed_unique :
    (front : String) (c : Char) (a x b y : String)
    → without c a ≡ true
    → without c b ≡ true
    → bracketed front c a ++ₛ x ≡ bracketed front c b ++ₛ y
    → (a ≡ b) × (x ≡ y)
unfolding bracketed
bracketed_unique front c a x b y p q h =
    cut_unique c a x b y p q (append_cancel_left front _ _ (sym (regroup a x) ∙ h ∙ regroup b y))
  where
    regroup :
        (s t : String) → (front ++ₛ (s ++ₛ ((c ∷ₛ "") ++ₛ ""))) ++ₛ t ≡ front ++ₛ (s ++ₛ (c ∷ₛ t))
    regroup s t = simp (append_assoc, append.cons, append.nil)

no_end : (d : Char) (sep s : String) → ¬ ("" ≡ (d ∷ₛ sep) ++ₛ s)
no_end d sep s h = nil≢cons (h ∙ append.cons d sep s)

-- A joined text of bracketed parts shows the parts, unless there are none.
pub join-bracketed_injective :
    (front : String) (c d : Char) (sep a b : String) (us vs : List String)
    → All (λ s. without c s ≡ true) (a ∷ us)
    → All (λ s. without c s ≡ true) (b ∷ vs)
    → join (d ∷ₛ sep) (map (bracketed front c) (a ∷ us))
      ≡ join (d ∷ₛ sep) (map (bracketed front c) (b ∷ vs))
    → Path (List String) (a ∷ us) (b ∷ vs)
unfolding join
join-bracketed_injective front c d sep a b [] [] p q h =
    ap (λ s. s ∷ []) (bracketed_unique front c a "" b "" p.0 q.0 (ap (◌++ₛ "") h)).0
join-bracketed_injective front c d sep a b [] (b' ∷ vs) p q h = absurd (
    no_end d sep _
      (bracketed_unique front c a "" b _ p.0 q.0 (append-nil (bracketed front c a) ∙ h)).1)
join-bracketed_injective front c d sep a b (a' ∷ us) [] p q h = absurd (
    no_end d sep _ (
      sym
        (bracketed_unique front c a _ b "" p.0 q.0 (h ∙ sym (append-nil (bracketed front c b)))).1))
join-bracketed_injective front c d sep a b (a' ∷ us) (b' ∷ vs) p q h =
    let (here, tail) = bracketed_unique front c a _ b _ p.0 q.0 h in
    ap₂ (λ s ss. s ∷ ss) here
      (join-bracketed_injective front c d sep a' b' us vs p.1 q.1
        (append_cancel_left (d ∷ₛ sep) _ _ tail))
