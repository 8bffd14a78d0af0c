-- ===== src/Semantics/Data.antt =====
-- fpp_analysis/src/semantics/types.rs and value.rs: the data of FPP types and values. A type holds
-- the default values of its definition and a value holds its type, so they are declared together.
use fpp_tools.Prelude.{ℕ, String, Bool, List, Option, ℤ}

-- fpp_ast's `IntegerKind` and `FloatKind`.
pub data IntegerKind : Type 0 where
  u8 i8 u16 i16 u32 i32 u64 i64 : IntegerKind

pub data FloatKind : Type 0 where
  f32 f64 : FloatKind

-- A definition node of the syntax tree: its identifier and the name that it defines.
pub record DefNode : Type 0 where
  pub node_id : ℕ
  pub name : String

-- A 64-bit float, as its bit pattern.
pub record F64 : Type 0 where
  pub bits : ℕ

mutual
  pub data FppType : Type 0 where
    primitive_int : IntegerKind → FppType
    float : FloatKind → FppType
    string : Option ℤ → FppType
    boolean : FppType
    integer : FppType
    abs : DefNode → FppType
    alias : DefNode → FppType → FppType
    array : ArrayType → FppType
    anon_array : Option ℕ → FppType → FppType
    enum : EnumType → FppType
    struct : StructType → FppType
    anon_struct : TypeMembers → FppType

  pub data ArrayType : Type 0 where
    array_type : DefNode → Option ℕ → FppType → OptionArrayValue → ArrayType

  pub data EnumType : Type 0 where
    enum_type : DefNode → IntegerKind → OptionEnumConstantValue → EnumType

  pub data StructType : Type 0 where
    struct_type : DefNode → TypeMembers → OptionStructValue → List (String × ℕ) → StructType

  pub data TypeMembers : Type 0 where
    no_members : TypeMembers
    member : String → FppType → TypeMembers → TypeMembers

  pub data Value : Type 0 where
    primitive_integer_value : ℤ → IntegerKind → Value
    abs_type_value : DefNode → Value
    integer_value : ℤ → Value
    float_value : F64 → FloatKind → Value
    boolean_value : Bool → Value
    string_value : String → Value
    enum_constant_value : EnumConstantValue → Value
    anon_array_value : AnonArrayValue → Value
    array_value : ArrayValue → Value
    anon_struct_value : ValueMembers → Value
    struct_value : StructValue → Value

  pub data EnumConstantValue : Type 0 where
    enum_constant : String → ℤ → EnumType → EnumConstantValue

  pub data AnonArrayValue : Type 0 where
    elements : Values → OptionValue → AnonArrayValue

  pub data ArrayValue : Type 0 where
    array_elements : AnonArrayValue → ArrayType → ArrayValue

  pub data StructValue : Type 0 where
    struct_members : ValueMembers → StructType → StructValue

  pub data Values : Type 0 where
    no_values : Values
    value : Value → Values → Values

  pub data ValueMembers : Type 0 where
    no_value_members : ValueMembers
    value_member : String → Value → ValueMembers → ValueMembers

  pub data OptionValue : Type 0 where
    no_value : OptionValue
    some_value : Value → OptionValue

  pub data OptionArrayValue : Type 0 where
    no_array_value : OptionArrayValue
    some_array_value : ArrayValue → OptionArrayValue

  pub data OptionEnumConstantValue : Type 0 where
    no_enum_constant_value : OptionEnumConstantValue
    some_enum_constant_value : EnumConstantValue → OptionEnumConstantValue

  pub data OptionStructValue : Type 0 where
    no_struct_value : OptionStructValue
    some_struct_value : StructValue → OptionStructValue
