-- ===== src/Token/Ledger.antt =====
-- The sum of a token over its accounts, and what each change of one account does to it.
use fusotao_protocol.Base.{ℕ, ◌+◌, ◌==◌, if◌then◌else◌}
use fusotao_protocol.Base.Dict.{total}
use fusotao_protocol.Token.Types.{AccountData, State}

-- Free and reserved, of the one token.
abbrev pub worth : ℕ → ℕ → ℕ → AccountData → ℕ
worth t token who account = if t == token then account.free + account.reserved else 0

-- All that the accounts hold of a token.
unfoldable pub held : {N : Type 0} → ℕ → State N → ℕ
held t s = total (worth t) s.balances
