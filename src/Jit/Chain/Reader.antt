-- ===== src/Jit/Chain/Reader.antt =====
-- native/bap_jit.cpp: how `bap_jit_chain_add` reads the numbers of an array, and that it reads what was written.
use bap.Common.{
  ℕ, zero, suc, ◌≡◌, refl, if◌then◌else◌, Bool, true, false, List, [], ◌∷◌, ◌++◌, length, ap, ◌∙◌,
  append_assoc, map,
}

-- The numbers that are left, and `bad`.
pub record Reader : Type 0 where
  pub rest : List ℕ
  pub bad : Bool

abbrev pub reader : List ℕ → Reader
reader xs = record { rest = xs; bad = false }

-- `next`: 0 where there is none left, which is bad.
unfoldable pub next : Reader → ℕ × Reader
next r = elim r.rest as (λ _. ℕ × Reader) [
  | [] ↦ (0, record { rest = []; bad = true })
  | x ∷ xs ↦ (x, record { rest = xs; bad = r.bad })
]

-- A loop of `count` rounds that read one thing each, until what it reads is bad.
unfoldable pub read_many {ℓ} : {A : Type ℓ} → (Reader → A × Reader) → ℕ → Reader → List A × Reader
read_many one zero r = ([], r)
read_many one (suc count) r =
    let (x, r') = one r in
    let (xs, r'') = read_many one count r' in if r.bad then ([], r) else (x ∷ xs, r'')

-- The count, and then that many.
unfoldable pub read_list {ℓ} : {A : Type ℓ} → (Reader → A × Reader) → Reader → List A × Reader
unfolding next read_many
read_list one r = let (count, r') = next r in read_many one count r'

-- Things as they are written in an array, one after another.
unfoldable pub write_many {ℓ} : {A : Type ℓ} → (A → List ℕ) → List A → List ℕ
write_many write [] = []
write_many write (x ∷ xs) = write x ++ write_many write xs

unfoldable pub write_list {ℓ} : {A : Type ℓ} → (A → List ℕ) → List A → List ℕ
unfolding write_many
write_list write xs = length xs ∷ write_many write xs

map-id {ℓ} : {A : Type ℓ} (xs : List A) → map (λ x. x) xs ≡ xs
map-id [] = refl
map-id (x ∷ xs) = ap (λ ys. x ∷ ys) (map-id xs)

-- `one` reads what `write` writes of `x` as `f x`, whatever comes after it.
abbrev pub Reads {ℓ} : {A : Type ℓ} → (A → A) → (Reader → A × Reader) → (A → List ℕ) → Type ℓ
Reads {A} f one write = (x : A) (xs : List ℕ) → one (reader (write x ++ xs)) ≡ (f x, reader xs)

read_many-write_many {ℓ} :
    {A : Type ℓ} (f : A → A) (one : Reader → A × Reader) (write : A → List ℕ)
    → Reads f one write
    → (xs : List A) (rest : List ℕ)
    → read_many one (length xs) (reader (write_many write xs ++ rest)) ≡ (map f xs, reader rest)
unfolding read_many write_many
read_many-write_many f one write h [] rest = refl
read_many-write_many f one write h (x ∷ xs) rest =
    rw
      (
        append_assoc (write x) (write_many write xs) rest,
        h x (write_many write xs ++ rest),
        read_many-write_many f one write h xs rest,
      )
      refl

-- A list that is written with its length is read thing by thing.
pub read_list-write_list {ℓ} :
    {A : Type ℓ} (f : A → A) (one : Reader → A × Reader) (write : A → List ℕ)
    → Reads f one write
    → Reads (map f) (read_list one) (write_list write)
unfolding read_list write_list
read_list-write_list f one write h xs rest = read_many-write_many f one write h xs rest

-- The same for things that are read as they are.
pub read_list_same {ℓ} :
    {A : Type ℓ} (one : Reader → A × Reader) (write : A → List ℕ)
    → Reads (λ x. x) one write
    → Reads (λ xs. xs) (read_list one) (write_list write)
read_list_same one write h xs rest =
    read_list-write_list (λ x. x) one write h xs rest ∙ ap (λ ys. (ys, reader rest)) (map-id xs)
