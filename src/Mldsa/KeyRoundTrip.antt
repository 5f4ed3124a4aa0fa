-- ===== src/Mldsa/KeyRoundTrip.antt =====
-- Whole secret keys: the packed form that FIPS 204 gives, and what the code makes of it.
use gpu_rotation_engine.Base.{
  ℕ, ◌+◌, ◌*◌, ◌≤◌, ◌≡◌, refl, sym, ap, ◌∙◌, true, false, some, List, [], ◌++◌, All, arith, length,
  take, drop, ltb, ◌==◌, ==_refl, drop-drop, drop_left, take_left, length-append, append-nil,
}
use gpu_rotation_engine.Mldsa.Params.{mldsa_get_params}
use gpu_rotation_engine.Mldsa.SecretKey.{
  ExpandedKey, mode_eta, packed_size, unpack_eta, t0_offset, unpack_sk_fips204,
  unpack_t0_13bit_coeffs, unpack_eta2_coeffs, unpack_eta4_coeffs,
}
use gpu_rotation_engine.Mldsa.KeyBits.{
  Near, pack_eta2, pack_eta4, length-pack_eta2, length-pack_eta4, unpack-pack_eta2,
  unpack-pack_eta4,
}
use gpu_rotation_engine.Mldsa.T0Bits.{pack_t0, length-pack_t0, unpack-pack_t0}

module _ (key : List ℕ) (n1 n2 : ℕ) (rho k tr p1 p2 p3 : List ℕ)
    (is : key ≡ rho ++ (k ++ (tr ++ (p1 ++ (p2 ++ p3))))) (rho_len : length rho ≡ 32)
    (k_len : length k ≡ 32) (tr_len : length tr ≡ 64) (p1_len : length p1 ≡ n1)
    (p2_len : length p2 ≡ n2) where
  at_k : drop 32 key ≡ k ++ (tr ++ (p1 ++ (p2 ++ p3)))
  at_k = ap (drop 32) is ∙ drop_left 32 rho _ rho_len

  at_tr : drop 64 key ≡ tr ++ (p1 ++ (p2 ++ p3))
  at_tr = sym (drop-drop 32 32 64 key refl) ∙ ap (drop 32) at_k ∙ drop_left 32 k _ k_len

  at_s1 : drop 128 key ≡ p1 ++ (p2 ++ p3)
  at_s1 = sym (drop-drop 64 64 128 key refl) ∙ ap (drop 64) at_tr ∙ drop_left 64 tr _ tr_len

  at_s2 : drop (128 + n1) key ≡ p2 ++ p3
  at_s2 = sym (drop-drop 128 n1 (128 + n1) key refl) ∙ ap (drop n1) at_s1 ∙ drop_left n1 p1 _ p1_len

  at_t0 : drop (128 + n1 + n2) key ≡ p3
  at_t0 =
      sym (drop-drop (128 + n1) n2 (128 + n1 + n2) key refl)
      ∙ ap (drop n2) at_s2
      ∙ drop_left n2 p2 p3 p2_len

  pub parts_at :
      (take 32 key ≡ rho)
      × (take 32 (drop 32 key) ≡ k)
      × (take 64 (drop 64 key) ≡ tr)
      × (drop 128 key ≡ p1 ++ (p2 ++ p3))
      × (drop (128 + n1) key ≡ p2 ++ p3)
      × (drop (128 + n1 + n2) key ≡ p3)
  parts_at = (
    ap (take 32) is ∙ take_left 32 rho _ rho_len,
    ap (take 32) at_k ∙ take_left 32 k _ k_len,
    ap (take 64) at_tr ∙ take_left 64 tr _ tr_len,
    at_s1,
    at_s2,
    at_t0,
  )

-- The bounds on a key's coefficients for an eta.
abbrev pub Coeffs : ℕ → ℕ → List ℕ → Type 0
Coeffs eta rows s = (length s ≡ 256 * rows) × All (Near eta eta) s

-- An expanded key of `l` and `k` rows.
pub record IsKey (eta l k : ℕ) (key : ExpandedKey) : Type 0 where
  pub rho_len : length key.rho ≡ 32
  pub rhoprime_len : length key.rhoprime ≡ 32
  pub tr_len : length key.tr ≡ 64
  pub s1_coeffs : Coeffs eta l key.s1
  pub s2_coeffs : Coeffs eta k key.s2
  pub t0_len : length key.t0 ≡ 256 * k
  pub t0_coeffs : All (Near 4096 4095) key.t0

-- The packed form of a key for eta 2, and for eta 4.
abbrev pub packed_key : (ℕ → List ℕ → List ℕ) → ℕ → ℕ → ℕ → ExpandedKey → List ℕ
packed_key pack_eta n1 n2 n3 key =
    key.rho
    ++ (key.rhoprime
        ++ (key.tr ++ (pack_eta n1 key.s1 ++ (pack_eta n2 key.s2 ++ pack_t0 n3 key.t0))))

-- The packed form of a key that a mode has by FIPS 204, for the modes whose eta the code knows.
abbrev pub packed_key_44 : ExpandedKey → List ℕ
packed_key_44 = packed_key pack_eta2 128 128 128

abbrev pub packed_key_65 : ExpandedKey → List ℕ
packed_key_65 = packed_key pack_eta4 640 768 192

pub not_less : (m n : ℕ) → m ≤ n → ltb n m ≡ false
not_less m n le = ground arith

pub unpack_is :
    (mode : ℕ) (sk : List ℕ) (packed_len n : ℕ) (key : ExpandedKey)
    → ((mldsa_get_params mode).k == 0) ≡ false
    → packed_len ≡ (mldsa_get_params mode).sk_len
    → ltb n (mldsa_get_params mode).sk_simple_len ≡ false
    → take 32 sk ≡ key.rho
    → take 32 (drop 32 sk) ≡ key.rhoprime
    → take 64 (drop 64 sk) ≡ key.tr
    → unpack_eta (mode_eta mode) (mldsa_get_params mode).l (drop 128 sk) ≡ key.s1
    → unpack_eta
        (mode_eta mode)
        (mldsa_get_params mode).k
        (drop (128 + packed_size (mldsa_get_params mode).l (mode_eta mode)) sk)
      ≡ key.s2
    → unpack_t0_13bit_coeffs ((mldsa_get_params mode).k * 256) (drop (t0_offset mode) sk) ≡ key.t0
    → unpack_sk_fips204 mode sk packed_len n ≡ some key
unfolding unpack_sk_fips204
unpack_is mode sk packed_len n key known len big a b c d e f =
    let right_len : (packed_len == (mldsa_get_params mode).sk_len) ≡ true =
      ap (λ m. m == (mldsa_get_params mode).sk_len) len ∙ ==_refl (mldsa_get_params mode).sk_len in
    rw (known, right_len, big, a, b, c, d, e, f) refl

packed_key-length :
    (key : ExpandedKey) (p1 p2 p3 : List ℕ)
    → length key.rho ≡ 32
    → length key.rhoprime ≡ 32
    → length key.tr ≡ 64
    → (n1 n2 n3 : ℕ) → length p1 ≡ n1
    → length p2 ≡ n2
    → length p3 ≡ n3
    → length (key.rho ++ (key.rhoprime ++ (key.tr ++ (p1 ++ (p2 ++ p3))))) ≡ 128 + n1 + n2 + n3
packed_key-length key p1 p2 p3 a b c n1 n2 n3 l1 l2 l3 = omega (
  arith,
  a,
  b,
  c,
  l1,
  l2,
  l3,
  length-append key.rho (key.rhoprime ++ (key.tr ++ (p1 ++ (p2 ++ p3)))),
  length-append key.rhoprime (key.tr ++ (p1 ++ (p2 ++ p3))),
  length-append key.tr (p1 ++ (p2 ++ p3)),
  length-append p1 (p2 ++ p3),
  length-append p2 p3,
)

-- A packed ML-DSA-44 key whose coefficients are in their ranges, s1 and s2 from -2 to 2 and t0 from
-- -4095 to 4096, is accepted, given room for the expanded form, and unpacked to those coefficients
-- and to its three seeds.
pub unpack-pack_key_44 :
    (key : ExpandedKey) (n : ℕ)
    → IsKey 2 4 4 key
    → 12416 ≤ n
    → unpack_sk_fips204 0 (packed_key_44 key) (length (packed_key_44 key)) n ≡ some key
unfolding mldsa_get_params unpack_eta mode_eta packed_size t0_offset
unpack-pack_key_44 key n v room =
    let p1 : List ℕ = pack_eta2 128 key.s1 in
    let p2 : List ℕ = pack_eta2 128 key.s2 in
    let p3 : List ℕ = pack_t0 128 key.t0 in
    let l1 : length p1 ≡ 384 = length-pack_eta2 128 key.s1 v.s1_coeffs.0 in
    let l2 : length p2 ≡ 384 = length-pack_eta2 128 key.s2 v.s2_coeffs.0 in
    let l3 : length p3 ≡ 13 * 128 = length-pack_t0 128 key.t0 v.t0_len in
    let len : length (packed_key_44 key) ≡ 2560 =
      packed_key-length key p1 p2 p3 v.rho_len v.rhoprime_len v.tr_len 384 384 (13 * 128) l1 l2
        l3 in
    let big : ltb n 12416 ≡ false = not_less _ n room in
    let (a, b, c, d, e, f) =
      parts_at (packed_key_44 key) 384 384 key.rho key.rhoprime key.tr p1 p2 p3 refl v.rho_len
        v.rhoprime_len v.tr_len l1 l2 in
    unpack_is 0 (packed_key_44 key) (length (packed_key_44 key)) n key refl len big a b c
      (ap (unpack_eta2_coeffs 128) d
        ∙ unpack-pack_eta2 128 key.s1 (p2 ++ p3) v.s1_coeffs.0 v.s1_coeffs.1)
      (ap (unpack_eta2_coeffs 128) e ∙ unpack-pack_eta2 128 key.s2 p3 v.s2_coeffs.0 v.s2_coeffs.1)
      (ap (unpack_t0_13bit_coeffs (4 * 256)) (f ∙ sym (append-nil p3))
        ∙ unpack-pack_t0 128 (4 * 256) key.t0 [] v.t0_len (sym v.t0_len) v.t0_coeffs)

-- A packed ML-DSA-65 key whose coefficients are in their ranges, s1 and s2 from -4 to 4 and t0 from
-- -4095 to 4096, is accepted, given room for the expanded form, and unpacked to those coefficients
-- and to its three seeds.
pub unpack-pack_key_65 :
    (key : ExpandedKey) (n : ℕ)
    → IsKey 4 5 6 key
    → 17536 ≤ n
    → unpack_sk_fips204 1 (packed_key_65 key) (length (packed_key_65 key)) n ≡ some key
unfolding mldsa_get_params unpack_eta mode_eta packed_size t0_offset
unpack-pack_key_65 key n v room =
    let p1 : List ℕ = pack_eta4 640 key.s1 in
    let p2 : List ℕ = pack_eta4 768 key.s2 in
    let p3 : List ℕ = pack_t0 192 key.t0 in
    let l1 : length p1 ≡ 640 = length-pack_eta4 640 key.s1 v.s1_coeffs.0 in
    let l2 : length p2 ≡ 768 = length-pack_eta4 768 key.s2 v.s2_coeffs.0 in
    let l3 : length p3 ≡ 13 * 192 = length-pack_t0 192 key.t0 v.t0_len in
    let len : length (packed_key_65 key) ≡ 4032 =
      packed_key-length key p1 p2 p3 v.rho_len v.rhoprime_len v.tr_len 640 768 (13 * 192) l1 l2
        l3 in
    let big : ltb n 17536 ≡ false = not_less _ n room in
    let (a, b, c, d, e, f) =
      parts_at (packed_key_65 key) 640 768 key.rho key.rhoprime key.tr p1 p2 p3 refl v.rho_len
        v.rhoprime_len v.tr_len l1 l2 in
    unpack_is 1 (packed_key_65 key) (length (packed_key_65 key)) n key refl len big a b c
      (ap (unpack_eta4_coeffs 640) d
        ∙ unpack-pack_eta4 640 key.s1 (p2 ++ p3) v.s1_coeffs.0 v.s1_coeffs.1)
      (ap (unpack_eta4_coeffs 768) e ∙ unpack-pack_eta4 768 key.s2 p3 v.s2_coeffs.0 v.s2_coeffs.1)
      (ap (unpack_t0_13bit_coeffs (6 * 256)) (f ∙ sym (append-nil p3))
        ∙ unpack-pack_t0 192 (6 * 256) key.t0 [] v.t0_len (sym v.t0_len) v.t0_coeffs)
