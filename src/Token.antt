-- ===== src/Token.antt =====
-- src/token: the kinds of tokens, the punctuators, and the types of constants.

-- `qcc_pp_token_kind`
pub data PpTokenKind : Type 0 where
  eof newline identifier pp_number char_const string_lit punct header_name other : PpTokenKind

-- `qcc_punct`, in the order of the source
pub data Punct : Type 0 where
  lbracket rbracket lparen rparen lbrace rbrace dot arrow plus_plus minus_minus : Punct
  amp star plus minus tilde bang slash percent lshift rshift : Punct
  lt gt le ge eq_eq bang_eq caret pipe amp_amp pipe_pipe : Punct
  question colon semi ellipsis eq star_eq slash_eq percent_eq plus_eq minus_eq : Punct
  lshift_eq rshift_eq amp_eq caret_eq pipe_eq comma hash hash_hash : Punct

-- `qcc_int_type`
pub data IntType : Type 0 where
  int uint long ulong llong ullong : IntType

-- `qcc_char_encoding`
pub data CharEncoding : Type 0 where
  plain wide char16 char32 utf8 : CharEncoding
