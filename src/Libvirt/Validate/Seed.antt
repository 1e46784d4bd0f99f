-- ===== src/Libvirt/Validate/Seed.antt =====
-- What the checks of cross-node-rental/src/workspace/libvirt_provider.rs keep out of the files.
use decentralized_cc_mesh_po.Base.{
  ltb, ◌==◌, if◌then◌else◌, ℕ, ◌+◌, ◌≤◌, ◌≡◌, refl, ◌≢◌, Bool, true, false, ◌||◌, [], ◌∷◌, ◌++◌,
  arith,
}
use decentralized_cc_mesh_po.Libvirt.Validate.{
  is_valid_tenant_name, is_valid_ssh_pubkey, user_data, meta_data, is_name_byte, is_line_break,
  is_key_type,
}
use decentralized_cc_mesh_po.Libvirt.Text.{Text, len, is_empty, all, any, first_token}

-- How often a code point stands in a text.
abbrev pub occurrences : ℕ → Text → ℕ
occurrences b [] = 0
occurrences b (c ∷ s) = let rest = occurrences b s in if c == b then rest + 1 else rest

count-append : (b : ℕ) (s t : Text) → occurrences b (s ++ t) ≡ occurrences b s + occurrences b t
count-append b [] t = omega arith
count-append b (c ∷ s) t = ground (arith, count-append b s t)

key_count :
    (b : ℕ) (s : Text) → is_line_break b ≡ true → any is_line_break s ≡ false → occurrences b s ≡ 0
key_count b [] l h = refl
key_count b (c ∷ s) l h = ground (arith, key_count b s)

name_count :
    (b : ℕ) (s : Text) → is_name_byte b ≡ false → all is_name_byte s ≡ true → occurrences b s ≡ 0
name_count b [] l h = refl
name_count b (c ∷ s) l h = ground (arith, name_count b s)

valid_name-count :
    (b : ℕ) (name : Text)
    → is_name_byte b ≡ false
    → is_valid_tenant_name name ≡ true
    → occurrences b name ≡ 0
unfolding is_valid_tenant_name
valid_name-count b name l h = name_count b name l (ground arith)

second_guard : (a b c : Bool) → (if a then false else if b then false else c) ≡ true → b ≡ false
second_guard a b c h = ground arith

valid_key-count :
    (b : ℕ) (key : Text)
    → is_line_break b ≡ true
    → is_valid_ssh_pubkey key ≡ true
    → occurrences b key ≡ 0
unfolding is_valid_ssh_pubkey
valid_key-count b key l h = key_count b key l (
    second_guard (is_empty key || ltb 8192 (len key)) (any is_line_break key)
      (is_key_type (first_token key)) h)

-- With a name and a key that pass the checks, neither puts a line feed, a carriage return or a zero
-- byte into the cloud-init files: the user data has its own ten line feeds and the meta data its two,
-- and neither has any of the other two.
pub seed_lines_fixed :
    (name key : Text)
    → is_valid_tenant_name name ≡ true
    → is_valid_ssh_pubkey key ≡ true
    → (occurrences 10 (user_data name key) ≡ 10)
      × (occurrences 13 (user_data name key) ≡ 0)
      × (occurrences 0 (user_data name key) ≡ 0)
      × (occurrences 10 (meta_data name) ≡ 2)
      × (occurrences 13 (meta_data name) ≡ 0)
      × (occurrences 0 (meta_data name) ≡ 0)
unfolding user_data meta_data
seed_lines_fixed name key n k =
    let name_10 = valid_name-count 10 name refl n in
    let name_13 = valid_name-count 13 name refl n in
    let name_0 = valid_name-count 0 name refl n in
    let key_10 = valid_key-count 10 key refl k in
    let key_13 = valid_key-count 13 key refl k in
    let key_0 = valid_key-count 0 key refl k in
    (
      simp (count-append, name_10, key_10) refl,
      simp (count-append, name_13, key_13) refl,
      simp (count-append, name_0, key_0) refl,
      simp (count-append, name_10) refl,
      simp (count-append, name_13) refl,
      simp (count-append, name_0) refl,
    )

abbrev pub Lacks : ℕ → Text → Type 0
Lacks b [] = Unit {0}
Lacks b (c ∷ s) = (c ≢ b) × Lacks b s

lacks : (b : ℕ) (s : Text) → is_name_byte b ≡ false → all is_name_byte s ≡ true → Lacks b s
lacks b [] h v = tt
lacks b (c ∷ s) h v = (ground arith, lacks b s h (ground arith))

-- A name that passes the check has from 1 to 64 bytes, and none of them is a slash, a dot, a
-- semicolon, a colon, a hash, a line feed or a carriage return.
pub valid_name_safe :
    (name : Text)
    → is_valid_tenant_name name ≡ true
    → (1 ≤ len name)
      × (len name ≤ 64)
      × Lacks b'/' name
      × Lacks b'.' name
      × Lacks b';' name
      × Lacks b':' name
      × Lacks b'#' name
      × Lacks 10 name
      × Lacks 13 name
unfolding is_valid_tenant_name
valid_name_safe [] h = cc
valid_name_safe (c ∷ name) h =
    let v : all is_name_byte (c ∷ name) ≡ true = ground arith in
    (
      ground arith,
      ground arith,
      lacks b'/' (c ∷ name) refl v,
      lacks b'.' (c ∷ name) refl v,
      lacks b';' (c ∷ name) refl v,
      lacks b':' (c ∷ name) refl v,
      lacks b'#' (c ∷ name) refl v,
      lacks 10 (c ∷ name) refl v,
      lacks 13 (c ∷ name) refl v,
    )
