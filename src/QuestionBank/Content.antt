-- ===== src/QuestionBank/Content.antt =====
-- backend/question_bank/schema.py: the content of one version of a question. `Floats` stands for
-- the floating-point numbers of Python.
use torq_pro_ai.Prelude.{ℕ, String, Bool, Option, List, Eq, enum_eq, string_eq, nat_eq, option_eq}
use torq_pro_ai.Prelude.Int.{ℤ, int_eq}

pub data Category : Type 0 where
  fastener_fundamentals bolt_and_nut_identification strength_classes : Category
  preload_and_clamp_force tightening_torque friction_and_lubrication : Category
  torque_tension_relationship vdi_2230_fundamentals iso_16047_testing : Category
  iso_2320_prevailing_torque_nuts thread_geometry thread_stripping_and_shear_area : Category
  joint_stiffness load_distribution embedding_and_settlement self_loosening : Category
  fatigue_and_dynamic_loading washers locking_methods surface_coatings : Category
  tightening_tools torque_control angle_controlled_tightening : Category
  yield_controlled_tightening process_capability pp_ppk_cp_cpk : Category
  measurement_and_calibration failure_analysis practical_assembly_cases : Category
  oem_general_estimation_methods : Category

pub data Difficulty : Type 0 where
  beginner intermediate advanced expert : Difficulty

pub data QuestionType : Type 0 where
  single_choice multiple_choice true_false numerical unit_conversion formula_selection :
      QuestionType

pub data SourceType : Type 0 where
  standard_requirement engineering_interpretation internal_engine oem_estimation : SourceType
  educational_simplification : SourceType

pub data EngineeringRiskLevel : Type 0 where
  low medium high : EngineeringRiskLevel

pub data TraceabilityLevel : Type 0 where
  approved provisional experimental deprecated unverified : TraceabilityLevel

unfoldable pub Category-discrete : Discrete Category
Category-discrete = hlevel

unfoldable pub Difficulty-discrete : Discrete Difficulty
Difficulty-discrete = hlevel

unfoldable pub QuestionType-discrete : Discrete QuestionType
QuestionType-discrete = hlevel

unfoldable pub SourceType-discrete : Discrete SourceType
SourceType-discrete = hlevel

unfoldable pub EngineeringRiskLevel-discrete : Discrete EngineeringRiskLevel
EngineeringRiskLevel-discrete = hlevel

unfoldable pub TraceabilityLevel-discrete : Discrete TraceabilityLevel
TraceabilityLevel-discrete = hlevel

unfoldable pub Bool-discrete : Discrete Bool
Bool-discrete = hlevel

instance abbrev pub category_eq : Eq Category
category_eq = enum_eq Category-discrete

instance abbrev pub difficulty_eq : Eq Difficulty
difficulty_eq = enum_eq Difficulty-discrete

instance abbrev pub question_type_eq : Eq QuestionType
question_type_eq = enum_eq QuestionType-discrete

instance abbrev pub source_type_eq : Eq SourceType
source_type_eq = enum_eq SourceType-discrete

instance abbrev pub risk_eq : Eq EngineeringRiskLevel
risk_eq = enum_eq EngineeringRiskLevel-discrete

instance abbrev pub traceability_eq : Eq TraceabilityLevel
traceability_eq = enum_eq TraceabilityLevel-discrete

instance abbrev pub bool_eq : Eq Bool
bool_eq = enum_eq Bool-discrete

pub record StandardReference : Type 0 where
  pub name : String
  pub edition_or_year : Option String
  pub clause_or_table : Option String

pub record SourceReference : Type 0 where
  pub source_type : SourceType
  pub description : String

-- The numbers of type `float`, with Python's comparisons to one another, to integers and to zero.
pub record Floats : Type 1 where
  pub Float : Type 0
  pub float_beq : Float → Float → Bool
  pub equals_int : Float → ℤ → Bool
  pub is_le_zero : Float → Bool

module _ ⦃f : Floats⦄ where
  -- `Union[int, List[int], bool, float]`
  pub data Answer : Type 0 where
    index : ℤ → Answer
    indices : List ℤ → Answer
    truth : Bool → Answer
    value : f.Float → Answer

  pub record QuestionRecord : Type 0 where
    pub question_id : String
    pub content_version : ℕ
    pub category : Category
    pub subcategory : Option String
    pub difficulty : Difficulty
    pub question_type : QuestionType
    pub question_tr : String
    pub question_en : String
    pub options_tr : Option (List String)
    pub options_en : Option (List String)
    pub correct_answer : Answer
    pub tolerance : Option f.Float
    pub technical_explanation_tr : String
    pub technical_explanation_en : String
    pub standard_reference : Option StandardReference
    pub source_reference : Option SourceReference
    pub source_locator : Option String
    pub traceability_level : TraceabilityLevel
    pub tags : List String
    pub learning_objective : String
    pub engineering_risk_level : EngineeringRiskLevel
    pub is_active : Bool
