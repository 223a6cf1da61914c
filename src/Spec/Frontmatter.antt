-- ===== src/Spec/Frontmatter.antt =====
-- The values of a `map[string]any` of frontmatter: those that decoded YAML holds, and the
-- `[]string` and `[]map[string]any` that the code itself stores before it encodes.
use agentskills_go.Base.{Bytes, List}

mutual
  -- `scalar` is any value that is neither nil, nor a string, nor a list, nor a map, by its text.
  pub data Value : Type 0 where
    null : Value
    text : Bytes → Value
    scalar : Bytes → Value
    items : Values → Value
    texts : List Bytes → Value
    objects : Objects → Value
    object : Fields → Value
    mapping : Pairs → Value

  -- `[]any`
  pub data Values : Type 0 where
    nil : Values
    cons : Value → Values → Values

  -- `map[string]any`
  pub data Fields : Type 0 where
    end : Fields
    field : Bytes → Value → Fields → Fields

  -- `[]map[string]any`
  pub data Objects : Type 0 where
    no_objects : Objects
    one_more : Fields → Objects → Objects

  -- `map[any]any`
  pub data Pairs : Type 0 where
    none : Pairs
    pair : Value → Value → Pairs → Pairs
