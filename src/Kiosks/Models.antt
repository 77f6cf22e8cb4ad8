-- ===== src/Kiosks/Models.antt =====
-- app/modules/kiosks/models.py and enums.py: the kiosk row, as the parts modelled here read it.
use printvendo_backend.Prelude.{◌==◌, ℕ, String, Bool, true, false, Option}
use printvendo_backend.Money.{Money}

pub data KioskType : Type 0 where
  platform sold saas : KioskType

pub data OnboardingStage : Type 0 where
  registered approved configured live maintenance suspended_billing retired : OnboardingStage

pub record Kiosk : Type 0 where
  pub id : ℕ
  pub public_id : String
  pub kiosk_type : KioskType
  pub onboarding_stage : OnboardingStage
  pub onboarding_note : Option String
  pub is_active : Bool
  pub accepts_wallet : Bool
  pub price_bw_single : Option Money
  pub price_bw_double : Option Money
  pub price_color_single : Option Money
  pub price_color_double : Option Money

-- TRANSITIONS
abbrev pub can_transition : OnboardingStage → OnboardingStage → Bool
can_transition registered approved = true
can_transition registered retired = true
can_transition approved configured = true
can_transition approved registered = true
can_transition approved retired = true
can_transition configured live = true
can_transition configured approved = true
can_transition configured retired = true
can_transition live maintenance = true
can_transition live suspended_billing = true
can_transition live retired = true
can_transition maintenance live = true
can_transition maintenance suspended_billing = true
can_transition maintenance retired = true
can_transition suspended_billing live = true
can_transition suspended_billing maintenance = true
can_transition suspended_billing retired = true
can_transition _ _ = false

abbrev stage_number : OnboardingStage → ℕ
stage_number registered = 0
stage_number approved = 1
stage_number configured = 2
stage_number live = 3
stage_number maintenance = 4
stage_number suspended_billing = 5
stage_number retired = 6

-- Whether two stages are the same.
abbrev pub same_stage : OnboardingStage → OnboardingStage → Bool
same_stage a b = stage_number a == stage_number b
