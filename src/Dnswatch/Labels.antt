-- ===== src/Dnswatch/Labels.antt =====
-- The loop over the labels of a name against what a name is.
use excubra.Prelude.{
  ℕ, zero, suc, ◌+◌, ◌≤◌, ◌<◌, ◌≡◌, inl, inr, refl, sym, subst, true, false, ◌||◌, Option, none,
  some, List, [], ◌∷◌, map, arith, ltb, leb, ◌==◌, length, Bool-cases, Option-cases,
}
use excubra.Sentinel.Frames.{byte_at, bytes_from}
use excubra.Dnswatch.Message.{read_labels, lower_byte}

-- A name stands at an offset: its labels and the offset behind it.
pub data Name : List ℕ → ℕ → List (List ℕ) → ℕ → Type 0 where
  root : (m : List ℕ) (i : ℕ) → i < length m → byte_at m i ≡ 0 → Name m i [] (i + 1)
  label :
      (m : List ℕ) (i : ℕ) (labels : List (List ℕ)) (end : ℕ)
      → 0 < byte_at m i
      → byte_at m i < 64
      → i + 1 + byte_at m i ≤ length m
      → Name m (i + 1 + byte_at m i) labels end
      → Name m i (map lower_byte (bytes_from m (i + 1) (byte_at m i)) ∷ labels) end

-- What stands at an offset is no name: the message ends, a label is compressed or runs beyond the end, or
-- this holds behind the first label.
pub data Broken : List ℕ → ℕ → Type 0 where
  ends : (m : List ℕ) (i : ℕ) → length m ≤ i → Broken m i
  compressed : (m : List ℕ) (i : ℕ) → i < length m → 64 ≤ byte_at m i → Broken m i
  overruns :
      (m : List ℕ) (i : ℕ)
      → i < length m
      → 0 < byte_at m i
      → length m < i + 1 + byte_at m i
      → Broken m i
  behind :
      (m : List ℕ) (i : ℕ)
      → 0 < byte_at m i
      → byte_at m i < 64
      → i + 1 + byte_at m i ≤ length m
      → Broken m (i + 1 + byte_at m i)
      → Broken m i

-- What the loop gives at an offset.
abbrev pub Decides : List ℕ → ℕ → Option (List (List ℕ) × ℕ) → Type 0
Decides m i none = Broken m i
Decides m i (some (labels, end)) = Name m i labels end

module _ (m : List ℕ) (i : ℕ) where
  -- The labels with the one at the offset in front.
  abbrev more : Option (List (List ℕ) × ℕ) → Option (List (List ℕ) × ℕ)
  more none = none
  more (some (labels, end)) =
      some (map lower_byte (bytes_from m (i + 1) (byte_at m i)) ∷ labels, end)

  more-Decides :
      (o : Option (List (List ℕ) × ℕ))
      → 0 < byte_at m i
      → byte_at m i < 64
      → i + 1 + byte_at m i ≤ length m
      → Decides m (i + 1 + byte_at m i) o
      → Decides m i (more o)
  more-Decides none some_byte short within d = behind m i some_byte short within d
  more-Decides (some (labels, end)) some_byte short within d =
      label m i labels end some_byte short within d

  round_ends : (fuel : ℕ) → leb (length m) i ≡ true → read_labels m (suc fuel) i ≡ none
  unfolding read_labels
  round_ends fuel out = rw (out, read_labels) refl

  round_root :
      (fuel : ℕ)
      → leb (length m) i ≡ false
      → (byte_at m i == 0) ≡ true
      → read_labels m (suc fuel) i ≡ some ([], i + 1)
  unfolding read_labels
  round_root fuel within stop = rw (within, stop, read_labels) refl

  round_bad :
      (fuel : ℕ)
      → leb (length m) i ≡ false
      → (byte_at m i == 0) ≡ false
      → (leb 64 (byte_at m i) || ltb (length m) (i + 1 + byte_at m i)) ≡ true
      → read_labels m (suc fuel) i ≡ none
  unfolding read_labels
  round_bad fuel within further bad = rw (within, further, bad, read_labels) refl

  round_more :
      (fuel : ℕ)
      → leb (length m) i ≡ false
      → (byte_at m i == 0) ≡ false
      → (leb 64 (byte_at m i) || ltb (length m) (i + 1 + byte_at m i)) ≡ false
      → read_labels m (suc fuel) i ≡ more (read_labels m fuel (i + 1 + byte_at m i))
  unfolding read_labels
  round_more fuel within further good =
      rw (within, further, good, read_labels)
        (elim (Option-cases (read_labels m fuel (i + 1 + byte_at m i))) [
          | inl e ↦ rw e refl
          | inr (r, e) ↦ rw e refl
        ])

  bad-Broken :
      leb (length m) i ≡ false
      → (byte_at m i == 0) ≡ false
      → (leb 64 (byte_at m i) || ltb (length m) (i + 1 + byte_at m i)) ≡ true
      → Broken m i
  bad-Broken within further bad = elim (Bool-cases (leb 64 (byte_at m i))) [
    | inl pointer ↦ compressed m i (ground (arith, within)) (ground (arith, pointer))
    | inr short ↦
        overruns m i (ground (arith, within)) (ground (arith, further)) (ground (arith, bad, short))
  ]

-- With a round for every byte that is left and one more, the loop reads the name at the offset, and gives up only where none
-- stands there, never for want of rounds.
pub read_labels-Decides :
    (m : List ℕ) (fuel i : ℕ) → length m ≤ fuel + i → Decides m i (read_labels m (suc fuel) i)
read_labels-Decides m zero i le =
    let out : leb (length m) i ≡ true = ground arith in
    subst (Decides m i) (sym (round_ends m i zero out)) (ends m i (omega (arith, le)))
read_labels-Decides m (suc fuel) i le = elim (Bool-cases (leb (length m) i)) [
  | inl out ↦
      subst (Decides m i) (sym (round_ends m i (suc fuel) out)) (ends m i (ground (arith, out)))
  | inr within ↦ elim (Bool-cases (byte_at m i == 0)) [
    | inl stop ↦
        subst (Decides m i) (sym (round_root m i (suc fuel) within stop))
          (root m i (ground (arith, within)) (ground (arith, stop)))
    | inr further ↦
        elim (Bool-cases (leb 64 (byte_at m i) || ltb (length m) (i + 1 + byte_at m i))) [
          | inl bad ↦
              subst (Decides m i) (sym (round_bad m i (suc fuel) within further bad))
                (bad-Broken m i within further bad)
          | inr good ↦ subst (Decides m i) (sym (round_more m i (suc fuel) within further good)) (
              more-Decides m i (read_labels m (suc fuel) (i + 1 + byte_at m i))
                (ground (arith, further)) (ground (arith, good)) (ground (arith, good))
                (read_labels-Decides m fuel (i + 1 + byte_at m i) (omega (arith, le))))
        ]
  ]
]
