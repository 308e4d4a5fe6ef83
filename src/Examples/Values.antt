-- ===== src/Examples/Values.antt =====
-- Stand-ins for what the program takes from outside: keys and floats are numbers, a key signs by
-- its own number, and encryption appends the key.
use whisper.Base.{
  ℕ, suc, ◌+◌, ◌-◌, ◌*◌, ◌++◌, ◌/◌, ◌^◌, ◌≡◌, refl, ◌∙◌, List, [], ◌∷◌, Bool, false, not, ◌&&◌,
  ◌||◌, some, arith, ltb, leb, ◌==◌, if◌then◌else◌, length, take, replicate, get_or, Bool-cases,
  inl, inr,
}
use whisper.Platform.{Platform}
use whisper.Sets.{Sets, elem, Distinct, each_until}

-- The number that some bytes spell, after the digits so far.
abbrev spelled : ℕ → List ℕ → ℕ
spelled n [] = n
spelled n (b ∷ bs) = spelled (n * 256 + b) bs

abbrev sum : List ℕ → ℕ
sum [] = 0
sum (b ∷ bs) = b + sum bs

abbrev pub double : List ℕ → List ℕ
double [] = []
double (b ∷ bs) = b ∷ b ∷ double bs

pub length-double : (b : List ℕ) → length (double b) ≡ 2 * length b
length-double [] = refl
length-double (x ∷ b) = omega (arith, length-double b)

abbrev pub numbers : Platform
numbers = record {
  PublicKey = ℕ;
  PrivateKey = ℕ;
  Float = ℕ;
  zero_pow = 0;
  lt = ltb;
  le = leb;
  eq = ◌==◌;
  of_uint = λ n. n;
  mul = ◌*◌;
  div = λ a b. a / b;
  pow2 = λ n. 2 ^ n;
  ceil_log2 = λ n. n;
  is_inf = λ f. false;
  is_nan = λ f. false;
  float_bits = λ f. f;
  float_from_bits = λ n. n;
  default_minimum_pow = 1;
  keccak256 = λ b. suc (sum b);
  ec_sign = λ h k. some (k ∷ replicate 64 7);
  recover_key = λ h s. some (get_or s 0 0);
  rlp_without_nonce = λ e t topic d. e ∷ t ∷ topic.b0 ∷ d;
  rlp_envelope = λ e t topic d n. e ∷ t ∷ topic.b0 ∷ n ∷ d;
  rlp_bundle = λ l. [];
  public_key = λ k. k;
  validate_public_key = λ k. not (k == 0);
  same_point = ◌==◌;
  accepts_key = λ k. length k == 32;
  gcm_seal = λ key nonce text. text;
  gcm_open = λ key nonce text. some text;
  ecies_encrypt = λ seed k text. some text;
  ecies_decrypt = λ k text. some text;
  pbkdf2 = λ password rounds n. 1 ∷ take (n - 1) (password ++ replicate n 7);
  to_hex = λ b. 48 ∷ 120 ∷ double b;
  bytes_to_hex = double;
  public_key_bytes = λ k. 4 ∷ k ∷ [];
  zero_secret = λ k. k == 0;
  bytes_to_hash = spelled 0;
}

-- Sets as lists without repetitions.
abbrev without : ℕ → List ℕ → List ℕ
without h [] = []
without h (k ∷ ks) = let rest = without h ks in if k == h then rest else k ∷ rest

pub elem-without : (h k : ℕ) (s : List ℕ) → elem h (without k s) ≡ (not (k == h) && elem h s)
elem-without h k [] = ground arith
elem-without h k (j ∷ s) = ground (arith, elem-without h k s)

pub without-Distinct : (k : ℕ) (s : List ℕ) → Distinct s → Distinct (without k s)
without-Distinct k [] d = tt
without-Distinct k (j ∷ s) d = elim (Bool-cases (j == k)) [
  | inl e ↦ rw e (without-Distinct k s d.1)
  | inr e ↦ rw e (elem-without j k s ∙ ground (arith, d.0), without-Distinct k s d.1)
]

abbrev pub DistinctList : Type 0
DistinctList = (l : List ℕ) × Distinct l

pub not_self : (k : ℕ) (b : Bool) → (not (k == k) && b) ≡ false
not_self k b = ground arith

abbrev add_to : ℕ → DistinctList → DistinctList
add_to k (l, d) =
    (k ∷ without k l, (elem-without k k l ∙ not_self k (elem k l), without-Distinct k l d))

pub add_law : (h k : ℕ) (s : List ℕ) → elem h (k ∷ without k s) ≡ ((k == h) || elem h s)
add_law h k s = ground (arith, elem-without h k s)

abbrev pub lists : Sets
lists = record {
  HashSet = DistinctList;
  new_set = ([], tt);
  add = add_to;
  discard = λ k s. (without k s.0, without-Distinct k s.0 s.1);
  contains = λ h s. elem h s.0;
  elements = λ s. s.0;
  each = λ A s f a. each_until s.0 f a;
  contains-new_set = λ h. refl;
  contains-add = λ h k s. add_law h k s.0;
  contains-discard = λ h k s. elem-without h k s.0;
  elem-elements = λ h s. refl;
  elements-Distinct = λ s. s.1;
  each_elements = λ A s f a. refl;
}
