-- ===== src/Dataflow/Connectors/Valid.antt =====
-- dataflow/pkg/plan/plan.go, `checkConnValidation`: which connectors are taken.
use mathlib.Core.Path.{subst}
use multi_cloud.Common.{
  ℕ, ◌+◌, ◌==◌, ◌≡◌, ◌∙◌, refl, ap, sym, arith, Bool, true, false, ◌&&◌, ◌||◌, Text, codes, text_eq,
  text_eq_sound, List, [], ◌∷◌, Bool-cases, inl, inr,
}
use multi_cloud.Datamover.Types.{
  StorType, opensds, aws_s3, azure_blob, hw_obs, ceph_s3, hw_fusionstorage, hw_fusioncloud,
  other_type, Kv, Connector,
}
use multi_cloud.Dataflow.Connectors.{
  set_bit, set_flag, config_flag, valid_by, check_conn_validation,
}

-- A key is in the configuration.
abbrev pub has_key : Text → List Kv → Bool
has_key key [] = false
has_key key (kv ∷ cfg) = text_eq kv.key key || has_key key cfg

abbrev bit : Bool → ℕ → ℕ
bit true n = n
bit false n = 0

-- The flag with the five bits given.
abbrev flag_of : Bool → Bool → Bool → Bool → Bool → ℕ
flag_of r e b a s = bit r 1 + bit e 2 + bit b 4 + bit a 8 + bit s 16

set_bit-region : (r e b a s : Bool) → set_bit (flag_of r e b a s) 1 ≡ flag_of true e b a s
unfolding set_bit
set_bit-region r e b a s = ground arith

set_bit-endpoint : (r e b a s : Bool) → set_bit (flag_of r e b a s) 2 ≡ flag_of r true b a s
unfolding set_bit
set_bit-endpoint r e b a s = ground arith

set_bit-bucketname : (r e b a s : Bool) → set_bit (flag_of r e b a s) 4 ≡ flag_of r e true a s
unfolding set_bit
set_bit-bucketname r e b a s = ground arith

set_bit-access : (r e b a s : Bool) → set_bit (flag_of r e b a s) 8 ≡ flag_of r e b true s
unfolding set_bit
set_bit-access r e b a s = ground arith

set_bit-security : (r e b a s : Bool) → set_bit (flag_of r e b a s) 16 ≡ flag_of r e b a true
unfolding set_bit
set_bit-security r e b a s = ground arith

module _ (r e b a s : Bool) where
  -- The flag after one key.
  abbrev keyed : Text → ℕ
  keyed key =
      flag_of (text_eq key (codes "region") || r) (text_eq key (codes "endpoint") || e)
        (text_eq key (codes "bucketname") || b) (text_eq key (codes "access") || a)
        (text_eq key (codes "security") || s)

  set_flag-keyed : (key : Text) → set_flag key (flag_of r e b a s) ≡ keyed key
  unfolding set_flag
  set_flag-keyed key = elim (Bool-cases (text_eq key (codes "region"))) [
    | inl y ↦
        subst (λ k. set_flag k (flag_of r e b a s) ≡ keyed k)
          (sym (text_eq_sound key (codes "region") y)) (set_bit-region r e b a s)
    | inr n0 ↦ elim (Bool-cases (text_eq key (codes "endpoint"))) [
      | inl y ↦
          subst (λ k. set_flag k (flag_of r e b a s) ≡ keyed k)
            (sym (text_eq_sound key (codes "endpoint") y)) (set_bit-endpoint r e b a s)
      | inr n1 ↦ elim (Bool-cases (text_eq key (codes "bucketname"))) [
        | inl y ↦
            subst (λ k. set_flag k (flag_of r e b a s) ≡ keyed k)
              (sym (text_eq_sound key (codes "bucketname") y)) (set_bit-bucketname r e b a s)
        | inr n2 ↦ elim (Bool-cases (text_eq key (codes "access"))) [
          | inl y ↦
              subst (λ k. set_flag k (flag_of r e b a s) ≡ keyed k)
                (sym (text_eq_sound key (codes "access") y)) (set_bit-access r e b a s)
          | inr n3 ↦ elim (Bool-cases (text_eq key (codes "security"))) [
            | inl y ↦
                subst (λ k. set_flag k (flag_of r e b a s) ≡ keyed k)
                  (sym (text_eq_sound key (codes "security") y)) (set_bit-security r e b a s)
            | inr n4 ↦ rw (n0, n1, n2, n3, n4) refl
          ]
        ]
      ]
    ]
  ]

or_swap : (h t r : Bool) → (h || (t || r)) ≡ ((t || h) || r)
or_swap h t r = ground arith

config_flag-keys :
    (cfg : List Kv) (r e b a s : Bool)
    → config_flag cfg (flag_of r e b a s)
      ≡ flag_of
          (has_key (codes "region") cfg || r)
          (has_key (codes "endpoint") cfg || e)
          (has_key (codes "bucketname") cfg || b)
          (has_key (codes "access") cfg || a)
          (has_key (codes "security") cfg || s)
unfolding config_flag
config_flag-keys [] r e b a s = refl
config_flag-keys (kv ∷ cfg) r e b a s =
    ap (config_flag cfg) (set_flag-keyed r e b a s kv.key)
    ∙ config_flag-keys cfg (text_eq kv.key (codes "region") || r)
        (text_eq kv.key (codes "endpoint") || e) (text_eq kv.key (codes "bucketname") || b)
        (text_eq kv.key (codes "access") || a) (text_eq kv.key (codes "security") || s)
    ∙ (λ i.
        flag_of (or_swap (has_key (codes "region") cfg) (text_eq kv.key (codes "region")) r i)
          (or_swap (has_key (codes "endpoint") cfg) (text_eq kv.key (codes "endpoint")) e i)
          (or_swap (has_key (codes "bucketname") cfg) (text_eq kv.key (codes "bucketname")) b i)
          (or_swap (has_key (codes "access") cfg) (text_eq kv.key (codes "access")) a i)
          (or_swap (has_key (codes "security") cfg) (text_eq kv.key (codes "security")) s i))

full_flag : (r e b a s : Bool) → (flag_of r e b a s == 31) ≡ (r && e && b && a && s)
full_flag r e b a s = ground arith

or_false : (x : Bool) → (x || false) ≡ x
or_false x = ground arith

or_true : (x : Bool) → (x || true) ≡ true
or_true x = ground arith

-- What a connector of a type must say.
abbrev pub has_keys : StorType → List Kv → Bool
has_keys opensds cfg = true
has_keys ceph_s3 cfg =
    has_key (codes "endpoint") cfg
    && has_key (codes "bucketname") cfg
    && has_key (codes "access") cfg
    && has_key (codes "security") cfg
has_keys _ cfg =
    has_key (codes "region") cfg
    && has_key (codes "endpoint") cfg
    && has_key (codes "bucketname") cfg
    && has_key (codes "access") cfg
    && has_key (codes "security") cfg

all_five :
    (cfg : List Kv)
    → (config_flag cfg 0 == 31) ≡ (
        has_key (codes "region") cfg
        && has_key (codes "endpoint") cfg
        && has_key (codes "bucketname") cfg
        && has_key (codes "access") cfg
        && has_key (codes "security") cfg)
all_five cfg =
    ap (λ n. n == 31) (config_flag-keys cfg false false false false false)
    ∙ full_flag _ _ _ _ _
    ∙ ground arith

but_region :
    (cfg : List Kv)
    → (config_flag cfg 1 == 31) ≡ (
        has_key (codes "endpoint") cfg
        && has_key (codes "bucketname") cfg
        && has_key (codes "access") cfg
        && has_key (codes "security") cfg)
but_region cfg =
    ap (λ n. n == 31) (config_flag-keys cfg true false false false false)
    ∙ full_flag _ _ _ _ _
    ∙ ground arith

valid_by-has_keys : (t : StorType) (cfg : List Kv) → valid_by t cfg ≡ has_keys t cfg
unfolding valid_by
valid_by-has_keys opensds cfg = refl
valid_by-has_keys aws_s3 cfg = all_five cfg
valid_by-has_keys azure_blob cfg = all_five cfg
valid_by-has_keys hw_obs cfg = all_five cfg
valid_by-has_keys ceph_s3 cfg = but_region cfg
valid_by-has_keys hw_fusionstorage cfg = all_five cfg
valid_by-has_keys hw_fusioncloud cfg = all_five cfg
valid_by-has_keys (other_type t) cfg = all_five cfg

-- A connector is taken exactly if it is of the own storage, or its configuration has all five keys,
-- where a ceph connector needs no region; the order of the keys, repeated keys and keys that are not
-- known make no difference.
pub check_conn_validation-has_keys :
    (conn : Connector) → check_conn_validation conn ≡ has_keys conn.type conn.conn_config
unfolding check_conn_validation
check_conn_validation-has_keys conn = valid_by-has_keys conn.type conn.conn_config
