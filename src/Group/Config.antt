-- ===== src/Group/Config.antt =====
-- The configuration of a group, and its validation: packages/consumer-group/src/config.ts.
use streamerson.Prelude.{
  ℕ, ◌≤◌, String, ◌≡◌, ◌↔◌, Option, arith, ltb, or_else, ◌&&◌, not, nat_eq, ◌⊎◌,
}
use streamerson.Prelude.Result.{Result, ok, ◌>>◌, guard}

pub record ConsumerGroupOptions : Type 0 where
  pub name : String
  pub min : Option ℕ
  pub max : Option ℕ
  pub processing_timeout : Option ℕ
  pub idle_timeout : Option ℕ

pub record ConsumerGroupConfig : Type 0 where
  pub name : String
  pub min : ℕ
  pub max : ℕ
  pub processing_timeout : ℕ
  pub idle_timeout : ℕ

-- A maximum of 0 is falsy: it sets no limit to the minimum.
unfoldable pub validate_options : ConsumerGroupConfig → Result ConsumerGroupConfig
validate_options o = do
  guard (not (ltb o.min 1)) "min must be greater than 0"
  guard (not (not (nat_eq o.max 0) && ltb o.max o.min)) "min must be less than max"
  ok o

-- `createConsumerGroupConfig`: the defaults of the destructuring, and then the validation.
unfoldable pub create_consumer_group_config : ConsumerGroupOptions → Result ConsumerGroupConfig
unfolding validate_options
create_consumer_group_config o = validate_options (record {
  name = o.name;
  min = or_else o.min 1;
  max = or_else o.max 1;
  processing_timeout = or_else o.processing_timeout 0;
  idle_timeout = or_else o.idle_timeout 0;
})

-- A configuration is accepted exactly if the minimum, 1 by default, is at least 1, and the maximum, 1
-- by default, is 0 or at least the minimum; what is accepted is what was asked for, with defaults.
pub create_consumer_group_config-ok_iff :
    (o : ConsumerGroupOptions) (c : ConsumerGroupConfig)
    → (create_consumer_group_config o ≡ ok c) ↔ (
        ((1 ≤ or_else o.min 1) × ((or_else o.max 1 ≡ 0) ⊎ (or_else o.min 1 ≤ or_else o.max 1)))
        × (c ≡ record {
          name = o.name;
          min = or_else o.min 1;
          max = or_else o.max 1;
          processing_timeout = or_else o.processing_timeout 0;
          idle_timeout = or_else o.idle_timeout 0;
        }))
unfolding create_consumer_group_config
create_consumer_group_config-ok_iff o c = ground arith
