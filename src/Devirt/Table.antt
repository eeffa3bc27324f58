-- ===== src/Devirt/Table.antt =====
-- The table of Dalvik instructions of devirt_rebuild.hpp: opcodes and formats by mnemonic.
--
-- The formats, which are short strings in the code, are constructors here, so md_units has no case
-- for other strings.
use vardoger.Prelude.{ℕ, ◌+◌, List, [], ◌∷◌, ◌++◌}
use vardoger.Prelude.Order.{Bytes}
use vardoger.Prelude.Map.{Map}
use vardoger.Prelude.Text.{text}

pub data Fmt : Type 0 where
  f10x f11x f11n f12x f10t f22x f21s f21h f21c f21t f23x f22b f22s f22c f22t f20t : Fmt
  f31i f31c f30t f35c f3rc : Fmt

pub record MdOp : Type 0 where
  pub op : ℕ
  pub fmt : Fmt

unfoldable pub md_units : Fmt → ℕ
md_units f10x = 1
md_units f11x = 1
md_units f11n = 1
md_units f12x = 1
md_units f10t = 1
md_units f31i = 3
md_units f31c = 3
md_units f30t = 3
md_units f35c = 3
md_units f3rc = 3
md_units _ = 2

-- The list that `m` is initialised with.
abbrev named_ops : Map Bytes MdOp
named_ops =
    (text "nop", record { op = 0x00; fmt = f10x })
    ∷ (text "move", record { op = 0x01; fmt = f12x })
    ∷ (text "move/from16", record { op = 0x02; fmt = f22x })
    ∷ (text "move-wide", record { op = 0x04; fmt = f12x })
    ∷ (text "move-object", record { op = 0x07; fmt = f12x })
    ∷ (text "move-object/from16", record { op = 0x08; fmt = f22x })
    ∷ (text "move-result", record { op = 0x0A; fmt = f11x })
    ∷ (text "move-result-wide", record { op = 0x0B; fmt = f11x })
    ∷ (text "move-result-object", record { op = 0x0C; fmt = f11x })
    ∷ (text "move-exception", record { op = 0x0D; fmt = f11x })
    ∷ (text "return-void", record { op = 0x0E; fmt = f10x })
    ∷ (text "return", record { op = 0x0F; fmt = f11x })
    ∷ (text "return-wide", record { op = 0x10; fmt = f11x })
    ∷ (text "return-object", record { op = 0x11; fmt = f11x })
    ∷ (text "const/4", record { op = 0x12; fmt = f11n })
    ∷ (text "const/16", record { op = 0x13; fmt = f21s })
    ∷ (text "const", record { op = 0x14; fmt = f31i })
    ∷ (text "const/high16", record { op = 0x15; fmt = f21h })
    ∷ (text "const-wide/16", record { op = 0x16; fmt = f21s })
    ∷ (text "const-wide/32", record { op = 0x17; fmt = f31i })
    ∷ (text "const-wide/high16", record { op = 0x19; fmt = f21h })
    ∷ (text "const-string", record { op = 0x1A; fmt = f21c })
    ∷ (text "const-class", record { op = 0x1C; fmt = f21c })
    ∷ (text "monitor-enter", record { op = 0x1D; fmt = f11x })
    ∷ (text "monitor-exit", record { op = 0x1E; fmt = f11x })
    ∷ (text "check-cast", record { op = 0x1F; fmt = f21c })
    ∷ (text "instance-of", record { op = 0x20; fmt = f22c })
    ∷ (text "array-length", record { op = 0x21; fmt = f12x })
    ∷ (text "new-instance", record { op = 0x22; fmt = f21c })
    ∷ (text "new-array", record { op = 0x23; fmt = f22c })
    ∷ (text "throw", record { op = 0x27; fmt = f11x })
    ∷ (text "goto", record { op = 0x28; fmt = f10t })
    ∷ (text "goto/16", record { op = 0x29; fmt = f20t })
    ∷ (text "goto/32", record { op = 0x2A; fmt = f30t })
    ∷ (text "cmpl-float", record { op = 0x2D; fmt = f23x })
    ∷ (text "cmpg-float", record { op = 0x2E; fmt = f23x })
    ∷ (text "cmpl-double", record { op = 0x2F; fmt = f23x })
    ∷ (text "cmpg-double", record { op = 0x30; fmt = f23x })
    ∷ (text "cmp-long", record { op = 0x31; fmt = f23x })
    ∷ (text "if-eq", record { op = 0x32; fmt = f22t })
    ∷ (text "if-ne", record { op = 0x33; fmt = f22t })
    ∷ (text "if-lt", record { op = 0x34; fmt = f22t })
    ∷ (text "if-ge", record { op = 0x35; fmt = f22t })
    ∷ (text "if-gt", record { op = 0x36; fmt = f22t })
    ∷ (text "if-le", record { op = 0x37; fmt = f22t })
    ∷ (text "if-eqz", record { op = 0x38; fmt = f21t })
    ∷ (text "if-nez", record { op = 0x39; fmt = f21t })
    ∷ (text "if-ltz", record { op = 0x3A; fmt = f21t })
    ∷ (text "if-gez", record { op = 0x3B; fmt = f21t })
    ∷ (text "if-gtz", record { op = 0x3C; fmt = f21t })
    ∷ (text "if-lez", record { op = 0x3D; fmt = f21t })
    ∷ (text "aget", record { op = 0x44; fmt = f23x })
    ∷ (text "aget-wide", record { op = 0x45; fmt = f23x })
    ∷ (text "aget-object", record { op = 0x46; fmt = f23x })
    ∷ (text "aget-boolean", record { op = 0x47; fmt = f23x })
    ∷ (text "aget-byte", record { op = 0x48; fmt = f23x })
    ∷ (text "aget-char", record { op = 0x49; fmt = f23x })
    ∷ (text "aget-short", record { op = 0x4A; fmt = f23x })
    ∷ (text "aput", record { op = 0x4B; fmt = f23x })
    ∷ (text "aput-wide", record { op = 0x4C; fmt = f23x })
    ∷ (text "aput-object", record { op = 0x4D; fmt = f23x })
    ∷ (text "aput-boolean", record { op = 0x4E; fmt = f23x })
    ∷ (text "aput-byte", record { op = 0x4F; fmt = f23x })
    ∷ (text "aput-char", record { op = 0x50; fmt = f23x })
    ∷ (text "aput-short", record { op = 0x51; fmt = f23x })
    ∷ (text "iget", record { op = 0x52; fmt = f22c })
    ∷ (text "iget-wide", record { op = 0x53; fmt = f22c })
    ∷ (text "iget-object", record { op = 0x54; fmt = f22c })
    ∷ (text "iget-boolean", record { op = 0x55; fmt = f22c })
    ∷ (text "iget-byte", record { op = 0x56; fmt = f22c })
    ∷ (text "iget-char", record { op = 0x57; fmt = f22c })
    ∷ (text "iget-short", record { op = 0x58; fmt = f22c })
    ∷ (text "iput", record { op = 0x59; fmt = f22c })
    ∷ (text "iput-wide", record { op = 0x5A; fmt = f22c })
    ∷ (text "iput-object", record { op = 0x5B; fmt = f22c })
    ∷ (text "iput-boolean", record { op = 0x5C; fmt = f22c })
    ∷ (text "iput-byte", record { op = 0x5D; fmt = f22c })
    ∷ (text "iput-char", record { op = 0x5E; fmt = f22c })
    ∷ (text "iput-short", record { op = 0x5F; fmt = f22c })
    ∷ (text "sget", record { op = 0x60; fmt = f21c })
    ∷ (text "sget-wide", record { op = 0x61; fmt = f21c })
    ∷ (text "sget-object", record { op = 0x62; fmt = f21c })
    ∷ (text "sget-boolean", record { op = 0x63; fmt = f21c })
    ∷ (text "sget-byte", record { op = 0x64; fmt = f21c })
    ∷ (text "sget-char", record { op = 0x65; fmt = f21c })
    ∷ (text "sget-short", record { op = 0x66; fmt = f21c })
    ∷ (text "sput", record { op = 0x67; fmt = f21c })
    ∷ (text "sput-wide", record { op = 0x68; fmt = f21c })
    ∷ (text "sput-object", record { op = 0x69; fmt = f21c })
    ∷ (text "sput-boolean", record { op = 0x6A; fmt = f21c })
    ∷ (text "sput-byte", record { op = 0x6B; fmt = f21c })
    ∷ (text "sput-char", record { op = 0x6C; fmt = f21c })
    ∷ (text "sput-short", record { op = 0x6D; fmt = f21c })
    ∷ (text "invoke-virtual", record { op = 0x6E; fmt = f35c })
    ∷ (text "invoke-super", record { op = 0x6F; fmt = f35c })
    ∷ (text "invoke-direct", record { op = 0x70; fmt = f35c })
    ∷ (text "invoke-static", record { op = 0x71; fmt = f35c })
    ∷ (text "invoke-interface", record { op = 0x72; fmt = f35c })
    ∷ (text "invoke-virtual/range", record { op = 0x74; fmt = f3rc })
    ∷ (text "invoke-super/range", record { op = 0x75; fmt = f3rc })
    ∷ (text "invoke-direct/range", record { op = 0x76; fmt = f3rc })
    ∷ (text "invoke-static/range", record { op = 0x77; fmt = f3rc })
    ∷ (text "invoke-interface/range", record { op = 0x78; fmt = f3rc })
    ∷ (text "neg-int", record { op = 0x7B; fmt = f12x })
    ∷ (text "not-int", record { op = 0x7C; fmt = f12x })
    ∷ (text "neg-long", record { op = 0x7D; fmt = f12x })
    ∷ (text "not-long", record { op = 0x7E; fmt = f12x })
    ∷ (text "neg-float", record { op = 0x7F; fmt = f12x })
    ∷ (text "neg-double", record { op = 0x80; fmt = f12x })
    ∷ (text "int-to-long", record { op = 0x81; fmt = f12x })
    ∷ (text "int-to-float", record { op = 0x82; fmt = f12x })
    ∷ (text "int-to-double", record { op = 0x83; fmt = f12x })
    ∷ (text "long-to-int", record { op = 0x84; fmt = f12x })
    ∷ (text "long-to-float", record { op = 0x85; fmt = f12x })
    ∷ (text "long-to-double", record { op = 0x86; fmt = f12x })
    ∷ (text "float-to-int", record { op = 0x87; fmt = f12x })
    ∷ (text "float-to-long", record { op = 0x88; fmt = f12x })
    ∷ (text "float-to-double", record { op = 0x89; fmt = f12x })
    ∷ (text "double-to-int", record { op = 0x8A; fmt = f12x })
    ∷ (text "double-to-long", record { op = 0x8B; fmt = f12x })
    ∷ (text "double-to-float", record { op = 0x8C; fmt = f12x })
    ∷ (text "int-to-byte", record { op = 0x8D; fmt = f12x })
    ∷ (text "int-to-char", record { op = 0x8E; fmt = f12x })
    ∷ (text "int-to-short", record { op = 0x8F; fmt = f12x })
    ∷ []

-- The lists `bin`, `l16` and `l8`.
abbrev bin : List Bytes
bin =
    text "add-int"
    ∷ text "sub-int"
    ∷ text "mul-int"
    ∷ text "div-int"
    ∷ text "rem-int"
    ∷ text "and-int"
    ∷ text "or-int"
    ∷ text "xor-int"
    ∷ text "shl-int"
    ∷ text "shr-int"
    ∷ text "ushr-int"
    ∷ text "add-long"
    ∷ text "sub-long"
    ∷ text "mul-long"
    ∷ text "div-long"
    ∷ text "rem-long"
    ∷ text "and-long"
    ∷ text "or-long"
    ∷ text "xor-long"
    ∷ text "shl-long"
    ∷ text "shr-long"
    ∷ text "ushr-long"
    ∷ text "add-float"
    ∷ text "sub-float"
    ∷ text "mul-float"
    ∷ text "div-float"
    ∷ text "rem-float"
    ∷ text "add-double"
    ∷ text "sub-double"
    ∷ text "mul-double"
    ∷ text "div-double"
    ∷ text "rem-double"
    ∷ []

abbrev l16 : List Bytes
l16 =
    text "add-int"
    ∷ text "rsub-int"
    ∷ text "mul-int"
    ∷ text "div-int"
    ∷ text "rem-int"
    ∷ text "and-int"
    ∷ text "or-int"
    ∷ text "xor-int"
    ∷ []

abbrev l8 : List Bytes
l8 =
    text "add-int"
    ∷ text "rsub-int"
    ∷ text "mul-int"
    ∷ text "div-int"
    ∷ text "rem-int"
    ∷ text "and-int"
    ∷ text "or-int"
    ∷ text "xor-int"
    ∷ text "shl-int"
    ∷ text "shr-int"
    ∷ text "ushr-int"
    ∷ []

-- The entries of a family, whose opcodes count up from `op`.
abbrev pub family_ops : List Bytes → Bytes → ℕ → Fmt → Map Bytes MdOp
family_ops [] suffix op fmt = []
family_ops (name ∷ names) suffix op fmt =
    (name ++ suffix, record { op = op; fmt = fmt }) ∷ family_ops names suffix (op + 1) fmt

-- The whole table; no mnemonic stands in it twice.
unfoldable pub md_ops : Map Bytes MdOp
md_ops =
    named_ops
    ++ (family_ops bin [] 0x90 f23x
        ++ (family_ops bin (text "/2addr") 0xB0 f12x
            ++ (family_ops l16 (text "/lit16") 0xD0 f22s
                ++ family_ops l8 (text "/lit8") 0xD8 f22b)))
