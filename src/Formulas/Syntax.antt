-- ===== src/Formulas/Syntax.antt =====
-- Tokens and syntax trees of formulas: `Token` of formulas/scan.py and the dictionaries that
-- formulas/parse.py builds. A number is a float of the host, and a reference is the tree that the
-- scanner made; both are parameters.
use finance_context_builder.Base.Text.{Text}

-- The values of OP tokens.
pub data Op : Type 0 where
  concat eq ne lt gt le ge plus minus times over power percent_sign : Op

module _ (Number Ref : Type 0) where
  -- The kind and the value in one; the position is not read by the parser.
  pub data Token : Type 0 where
    number : Number → Token
    string error_token name : Text → Token
    ref : Ref → Token
    op : Op → Token
    lparen rparen lbrace rbrace sep rowsep colon : Token

  mutual
    pub data Ast : Type 0 where
      num : Number → Ast
      str err named : Text → Ast
      cell : Ref → Ast
      bin : Op → Ast → Ast → Ast
      unary : Op → Ast → Ast
      percent : Ast → Ast
      func : Text → Asts → Ast
      array : Rows → Ast
      named_range : Text → Text → Ast

    pub data Asts : Type 0 where
      no_more : Asts
      and_then : Ast → Asts → Asts

    pub data Rows : Type 0 where
      no_row : Rows
      row : Asts → Rows → Rows
