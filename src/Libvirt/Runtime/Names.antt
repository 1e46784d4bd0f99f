-- ===== src/Libvirt/Runtime/Names.antt =====
-- The names of the tenants in cross-node-rental/src/workspace/libvirt_provider.rs, whose map is a list
-- in which each name stands once.
use decentralized_cc_mesh_po.Base.{Bool-cases, ◌≡◌, refl, inl, inr, false, none, [], ◌∷◌, arith}
use decentralized_cc_mesh_po.Libvirt.Text.{Text, text_eq, text_eq_refl, text_eq_sound}
use decentralized_cc_mesh_po.Libvirt.Runtime.{TenantState, Tenants, get, update, insert, delete}

abbrev pub Unique : Tenants → Type 0
Unique [] = Unit {0}
Unique ((n, t) ∷ ts) = (get n ts ≡ none) × Unique ts

absent-update :
    (m n : Text) (f : TenantState → TenantState) (ts : Tenants)
    → get m ts ≡ none
    → get m (update n f ts) ≡ none
absent-update m n f [] e = refl
absent-update m n f ((k, t) ∷ ts) e = ground (arith, absent-update m n f ts)

pub update-Unique :
    (n : Text) (f : TenantState → TenantState) (ts : Tenants) → Unique ts → Unique (update n f ts)
update-Unique n f [] u = tt
update-Unique n f ((k, t) ∷ ts) u = ground (arith, absent-update k n f ts, update-Unique n f ts)

absent-delete : (m n : Text) (ts : Tenants) → get m ts ≡ none → get m (delete n ts) ≡ none
absent-delete m n [] e = refl
absent-delete m n ((k, t) ∷ ts) e = ground (arith, absent-delete m n ts)

pub delete-Unique : (n : Text) (ts : Tenants) → Unique ts → Unique (delete n ts)
delete-Unique n [] u = tt
delete-Unique n ((k, t) ∷ ts) u = ground (arith, absent-delete k n ts, delete-Unique n ts)

pub gone-delete : (n : Text) (ts : Tenants) → Unique ts → get n (delete n ts) ≡ none
gone-delete n [] u = refl
gone-delete n ((k, t) ∷ ts) u = ground (arith, text_eq_sound k n, gone-delete n ts)

absent-insert :
    (m n : Text) (s : TenantState) (ts : Tenants)
    → text_eq n m ≡ false
    → get m ts ≡ none
    → get m (insert n s ts) ≡ none
absent-insert m n s [] d e = ground arith
absent-insert m n s ((k, t) ∷ ts) d e = ground (arith, absent-insert m n s ts)

text_eq_flip : (m n : Text) → text_eq m n ≡ false → text_eq n m ≡ false
text_eq_flip m n d = elim (Bool-cases (text_eq n m)) [
  | inl e ↦ absurd (ground (arith, text_eq_sound n m e, text_eq_refl m))
  | inr e ↦ e
]

pub insert-Unique :
    (n : Text) (s : TenantState) (ts : Tenants)
    → get n ts ≡ none
    → Unique ts
    → Unique (insert n s ts)
insert-Unique n s [] e u = (refl, tt)
insert-Unique n s ((k, t) ∷ ts) e u =
    ground (arith, text_eq_flip k n, absent-insert k n s ts, insert-Unique n s ts)

pub update_absent :
    (n : Text) (f : TenantState → TenantState) (ts : Tenants) → get n ts ≡ none → update n f ts ≡ ts
update_absent n f [] e = refl
update_absent n f ((k, t) ∷ ts) e = ground (arith, update_absent n f ts)
