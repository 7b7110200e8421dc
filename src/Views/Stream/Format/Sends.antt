-- ===== src/Views/Stream/Format/Sends.antt =====
-- What the line of a sent message tells.
use atividade_consenso_raft.Base.{
  tail_unique, Behind, concat-one, concat-literal, concat_cancel, Bool-cases, ℕ, String, true,
  false, Option, none, some, [], ◌∷◌, concat, decimal, without, part_unique, decimal_injective,
  without-decimal, if◌then◌else◌, ◌≡◌, inl, inr, refl, ap, sym, ◌∙◌, arith, All,
}
use atividade_consenso_raft.Event.{Event, number_text, prop_key, is_positive, or_zero}
use atividade_consenso_raft.Views.Stream.Format.{entries_text, format_rpc_send}

-- A name without a space.
abbrev pub IsWord : Option String → Type 0
IsWord name = without " " (prop_key name) ≡ true

without-number_text : (n : Option ℕ) → without " " (number_text n) ≡ true
unfolding without
without-number_text none = refl
without-number_text (some n) = without-decimal " " n refl

no_number : (n : ℕ) → ¬ ("undefined" ≡ decimal n)
no_number n h =
    let seen : without "u" "undefined" ≡ true = ap (without "u") h ∙ without-decimal "u" n refl in
    unfold without in ground arith

number_text_injective : (m n : Option ℕ) → number_text m ≡ number_text n → m ≡ n
number_text_injective none none h = refl
number_text_injective none (some n) h = absurd (no_number n h)
number_text_injective (some m) none h = absurd (no_number m (sym h))
number_text_injective (some m) (some n) h = ap some (decimal_injective m n h)

entries_text-Behind : (e : Event) → Behind " " (concat (entries_text e ∷ []))
unfolding entries_text
entries_text-Behind e = elim (Bool-cases (is_positive e.entries)) [
  | inl some_entries ↦ inr (
    concat ("entries=" ∷ number_text e.entries ∷ []),
    rw some_entries (concat-one _ ∙ concat-literal " " "entries=" (number_text e.entries ∷ [])),
  )
  | inr no_entries ↦ inl (rw no_entries (concat-one ""))
]

not_positive : (n : Option ℕ) → is_positive n ≡ false → or_zero n ≡ 0
not_positive none h = refl
not_positive (some n) h = ground arith

-- Nothing begins with a space and is empty.
no_entries_text : (n : Option ℕ) → ¬ (concat (" entries=" ∷ number_text n ∷ []) ≡ "")
unfolding without
no_entries_text n h =
    let seen : without " " "" ≡ false =
      ap (without " ") (sym h ∙ concat-literal " " "entries=" (number_text n ∷ [])) in
    ground arith

entries_text-tells :
    (m n : Option ℕ)
    → (if is_positive m then concat (" entries=" ∷ number_text m ∷ []) else "")
      ≡ (if is_positive n then concat (" entries=" ∷ number_text n ∷ []) else "")
    → or_zero m ≡ or_zero n
entries_text-tells m n h = elim (Bool-cases (is_positive m)) [
  | inl p ↦ elim (Bool-cases (is_positive n)) [
    | inl q ↦
        ap or_zero (number_text_injective m n (concat_cancel " entries=" _ _ (rw (p, q) at h)))
    | inr q ↦ absurd (no_entries_text m (rw (p, q) at h))
  ]
  | inr p ↦ elim (Bool-cases (is_positive n)) [
    | inl q ↦ absurd (no_entries_text n (sym (rw (p, q) at h)))
    | inr q ↦ not_positive m p ∙ sym (not_positive n q)
  ]
]

-- The line of a sent message tells its sender, its receiver and the call, if these are names without
-- a space, and the term and the number of entries: messages that differ in one of them have
-- different lines.
pub format_rpc_send_injective :
    (e e' : Event)
    → All IsWord (e.from ∷ e.to ∷ e.rpc ∷ [])
    → All IsWord (e'.from ∷ e'.to ∷ e'.rpc ∷ [])
    → format_rpc_send e ≡ format_rpc_send e'
    → (prop_key e.from ≡ prop_key e'.from)
      × (prop_key e.to ≡ prop_key e'.to)
      × (prop_key e.rpc ≡ prop_key e'.rpc)
      × (e.term ≡ e'.term)
      × (or_zero e.entries ≡ or_zero e'.entries)
unfolding format_rpc_send entries_text
format_rpc_send_injective e e' (f, (t, (r, _))) (f', (t', (r', _))) h =
    let (from, h1) = part_unique " " "→ " _ _ _ _ f f' h in
    let (to, h2) = part_unique " " "" _ _ _ _ t t' h1 in
    let (rpc, h3) = part_unique " " "term=" _ _ _ _ r r' h2 in
    let (term, tail) =
      tail_unique " " (number_text e.term) (concat (entries_text e ∷ [])) (number_text e'.term)
        (concat (entries_text e' ∷ [])) (without-number_text e.term) (without-number_text e'.term)
        (entries_text-Behind e) (entries_text-Behind e') h3 in
    (
      from,
      to,
      rpc,
      number_text_injective e.term e'.term term,
      entries_text-tells e.entries e'.entries
          (sym (concat-one (entries_text e)) ∙ tail ∙ concat-one (entries_text e')),
    )
