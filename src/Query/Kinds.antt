-- ===== src/Query/Kinds.antt =====
-- crates/nova-query/src/lexer.rs: which kind a token has, by the number of its constructor.
use nova_db.Base.{ℕ, Bool, ◌==◌}
use nova_db.Query.Token.{TokenKind}

module _ {F : Type 0} where
  abbrev discriminant : TokenKind F → ℕ
  discriminant TokenKind.find = 0
  discriminant TokenKind.insert = 1
  discriminant TokenKind.into = 2
  discriminant TokenKind.values = 3
  discriminant TokenKind.update = 4
  discriminant TokenKind.set = 5
  discriminant TokenKind.remove = 6
  discriminant TokenKind.watch = 7
  discriminant TokenKind.count = 8
  discriminant TokenKind.exists = 9
  discriminant TokenKind.create = 10
  discriminant TokenKind.drop = 11
  discriminant TokenKind.index = 12
  discriminant TokenKind.type = 13
  discriminant TokenKind.where_keyword = 14
  discriminant TokenKind.sort = 15
  discriminant TokenKind.limit = 16
  discriminant TokenKind.offset = 17
  discriminant TokenKind.asc = 18
  discriminant TokenKind.desc = 19
  discriminant TokenKind.and = 20
  discriminant TokenKind.or = 21
  discriminant TokenKind.not = 22
  discriminant TokenKind.in_keyword = 23
  discriminant TokenKind.between = 24
  discriminant TokenKind.begin = 25
  discriminant TokenKind.commit = 26
  discriminant TokenKind.rollback = 27
  discriminant TokenKind.hash = 28
  discriminant TokenKind.ordered = 29
  discriminant TokenKind.true = 30
  discriminant TokenKind.false = 31
  discriminant TokenKind.null = 32
  discriminant (TokenKind.int _) = 33
  discriminant (TokenKind.float _) = 34
  discriminant (TokenKind.string_lit _) = 35
  discriminant (TokenKind.identifier _) = 36
  discriminant TokenKind.eq_eq = 37
  discriminant TokenKind.eq = 38
  discriminant TokenKind.bang_eq = 39
  discriminant TokenKind.gt = 40
  discriminant TokenKind.gt_eq = 41
  discriminant TokenKind.lt = 42
  discriminant TokenKind.lt_eq = 43
  discriminant TokenKind.amp_amp = 44
  discriminant TokenKind.pipe_pipe = 45
  discriminant TokenKind.bang = 46
  discriminant TokenKind.plus = 47
  discriminant TokenKind.minus = 48
  discriminant TokenKind.star = 49
  discriminant TokenKind.slash = 50
  discriminant TokenKind.percent = 51
  discriminant TokenKind.l_paren = 52
  discriminant TokenKind.r_paren = 53
  discriminant TokenKind.l_brace = 54
  discriminant TokenKind.r_brace = 55
  discriminant TokenKind.l_bracket = 56
  discriminant TokenKind.r_bracket = 57
  discriminant TokenKind.comma = 58
  discriminant TokenKind.colon = 59
  discriminant TokenKind.dot = 60
  discriminant TokenKind.eof = 61

  -- `==` of a token with a kind that has no content: the parser compares with no other.
  abbrev pub is_kind : TokenKind F → TokenKind F → Bool
  is_kind kind other = discriminant kind == discriminant other
