-- ===== src/Spec/Keys.antt =====
-- The three identities of a skill, with Go's `==` on them.
use agentskills_go.Base.{Bytes, Bool, true, ◌&&◌, ◌≡◌, ◌↔◌, EqTest, bytes_beq, bytes_beq_iff, arith}

-- The internal identity.
pub record ProviderSkillKey : Type 0 where
  pub type : Bytes
  pub name : Bytes
  pub location : Bytes

-- The definition that the host gave.
pub record SkillDef : Type 0 where
  pub type : Bytes
  pub name : Bytes
  pub location : Bytes

-- The selector that the model of the prompt sees.
pub record SkillHandle : Type 0 where
  pub name : Bytes
  pub location : Bytes

abbrev pub key_beq : ProviderSkillKey → ProviderSkillKey → Bool
key_beq a b = bytes_beq a.type b.type && bytes_beq a.name b.name && bytes_beq a.location b.location

pub key_beq_iff : (a b : ProviderSkillKey) → (key_beq a b ≡ true) ↔ (a ≡ b)
key_beq_iff a b = ground (
  arith,
  bytes_beq_iff a.type b.type,
  bytes_beq_iff a.name b.name,
  bytes_beq_iff a.location b.location,
)

instance abbrev pub key_eq : EqTest ProviderSkillKey
key_eq = record { beq = key_beq; beq_iff = key_beq_iff }

abbrev pub def_beq : SkillDef → SkillDef → Bool
def_beq a b = bytes_beq a.type b.type && bytes_beq a.name b.name && bytes_beq a.location b.location

pub def_beq_iff : (a b : SkillDef) → (def_beq a b ≡ true) ↔ (a ≡ b)
def_beq_iff a b = ground (
  arith,
  bytes_beq_iff a.type b.type,
  bytes_beq_iff a.name b.name,
  bytes_beq_iff a.location b.location,
)

instance abbrev pub def_eq : EqTest SkillDef
def_eq = record { beq = def_beq; beq_iff = def_beq_iff }

abbrev pub handle_beq : SkillHandle → SkillHandle → Bool
handle_beq a b = bytes_beq a.name b.name && bytes_beq a.location b.location

pub handle_beq_iff : (a b : SkillHandle) → (handle_beq a b ≡ true) ↔ (a ≡ b)
handle_beq_iff a b =
    ground (arith, bytes_beq_iff a.name b.name, bytes_beq_iff a.location b.location)

instance abbrev pub handle_eq : EqTest SkillHandle
handle_eq = record { beq = handle_beq; beq_iff = handle_beq_iff }
