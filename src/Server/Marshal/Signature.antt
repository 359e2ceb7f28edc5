-- ===== src/Server/Marshal/Signature.antt =====
-- The text that searpc_compute_signature of lib/searpc-server.c feeds to the checksum: it tells
-- the types of two functions apart.
use libsearpc.Prelude.{
  ℕ, ◌≡◌, ◌≢◌, refl, sym, ◌∙◌, List, [], ◌∷◌, ◌++◌, append_assoc, append-nil, Bytes,
}
use libsearpc.Server.Marshal.{signature_text}

-- The code of ":".
abbrev pub colon : ℕ
colon = 58

-- A type name as the generator has them.
abbrev pub NoColon : Bytes → Type 0
NoColon [] = Unit
NoColon (c ∷ text) = (c ≢ colon) × NoColon text

abbrev pub NoColons : List Bytes → Type 0
NoColons [] = Unit
NoColons (name ∷ names) = NoColon name × NoColons names

-- Each parameter type behind a colon.
joined : List Bytes → Bytes
joined [] = []
joined (name ∷ names) = colon ∷ (name ++ joined names)

signature_text-joined :
    (ret : Bytes) (names : List Bytes) → signature_text ret names ≡ ret ++ joined names
unfolding signature_text joined
signature_text-joined ret [] = sym (append-nil ret)
signature_text-joined ret (name ∷ names) =
    signature_text-joined (ret ++ (colon ∷ name)) names
    ∙ append_assoc ret (colon ∷ name) (joined names)

-- A text ends where the next colon, or the end, is.
split :
    (a b : Bytes) (xs ys : List Bytes)
    → NoColon a
    → NoColon b
    → a ++ joined xs ≡ b ++ joined ys
    → (a ≡ b) × (joined xs ≡ joined ys)
unfolding joined
split [] [] xs ys na nb e = (refl, e)
split [] (c ∷ b) [] ys na nb e = absurd (cc e)
split [] (c ∷ b) (x ∷ xs) ys na nb e = let h : colon ≡ c = cc e in absurd (nb.0 (sym h))
split (c ∷ a) [] xs [] na nb e = absurd (cc e)
split (c ∷ a) [] xs (x ∷ ys) na nb e = let h : c ≡ colon = cc e in absurd (na.0 h)
split (c ∷ a) (d ∷ b) xs ys na nb e =
    let h : c ≡ d = cc e in
    let t : a ++ joined xs ≡ b ++ joined ys = cc e in
    let (p, q) = split a b xs ys na.1 nb.1 t in (cc (h, p), q)

joined-injective :
    (xs ys : List Bytes) → NoColons xs → NoColons ys → joined xs ≡ joined ys → xs ≡ ys
unfolding joined
joined-injective [] [] na nb e = refl
joined-injective [] (b ∷ ys) na nb e = absurd (cc e)
joined-injective (a ∷ xs) [] na nb e = absurd (cc e)
joined-injective (a ∷ xs) (b ∷ ys) na nb e =
    let t : a ++ joined xs ≡ b ++ joined ys = cc e in
    let (p, q) = split a b xs ys na.0 nb.0 t in cc (p, joined-injective xs ys na.1 nb.1 q)

-- Where the type names have no colon, the texts that searpc_compute_signature feeds to the
-- checksum are the same only for the same return type and the same list of parameter types.
pub signature_text-injective :
    (ret ret' : Bytes) (names names' : List Bytes)
    → NoColons (ret ∷ names)
    → NoColons (ret' ∷ names')
    → signature_text ret names ≡ signature_text ret' names'
    → (ret ≡ ret') × (names ≡ names')
signature_text-injective ret ret' names names' n n' e =
    let (p, q) =
      split ret ret' names names' n.0 n'.0
        (sym (signature_text-joined ret names) ∙ (e ∙ signature_text-joined ret' names')) in
    (p, joined-injective names names' n.1 n'.1 q)
