-- ===== src/Parser/Takes/Chunk.antt =====
-- src/parser.rs: what `parse_chunk` does with all the tokens.
use luster.Prelude.{ℕ, zero, suc, ◌-◌, ◌≡◌, sym, none}
use luster.Lexer.Tokens.{Token}
use luster.Parser.Syntax.{Block, Chunk}
use luster.Parser.Stream.{
  Stream, at_end, fails, next, ParserError, Parse, ok, err, and_then, failure, buffered, read_ahead,
  look_ahead,
}
use luster.Parser.Expressions.{Guarded}
use luster.Parser.Chunk.{
  parse_label_statement, parse_goto_statement, statement_from, statement, recursion_guard,
  parse_chunk, at_chunk_end, max_recursion,
}
use luster.Parser.Takes.{
  ending, Leaves, left, failed, Takes, reading, taking, weaken, Takes-pure, Costs-fail, Costs-if,
  get_next-Takes, take_next-Takes, check_ahead-Takes, expect_next-Takes, expect_name-Takes,
}
use luster.Parser.Takes.Expressions.{GuardedTakes, parse_block-Takes}
use luster.Parser.Takes.Suffixes.{sub_expression-Takes}
use luster.Parser.Takes.Statements.{
  parse_if_statement-Takes, parse_while_statement-Takes, parse_for_statement-Takes,
  parse_repeat_statement-Takes, parse_function_statement-Takes,
  parse_local_function_statement-Takes, parse_local_statement-Takes,
  parse_expression_statement-Takes,
}

module _ {F S : Type 0} where
  parse_label_statement-Takes : Takes 1 (parse_label_statement {F = F} {S = S})
  unfolding parse_label_statement
  parse_label_statement-Takes = taking (expect_next-Takes _) λ _.
      reading (weaken expect_name-Takes)
        λ n. reading (weaken (expect_next-Takes _)) λ _. Takes-pure _

  parse_goto_statement-Takes : Takes 1 (parse_goto_statement {F = F} {S = S})
  unfolding parse_goto_statement
  parse_goto_statement-Takes =
      taking (expect_next-Takes _) λ _. reading (weaken expect_name-Takes) λ n. Takes-pure _

module _ {F S : Type 0} {guarded : Guarded F S} (takes : GuardedTakes guarded) where
  statement_from-Takes : (t : Token F S) → Takes 1 (statement_from guarded t)
  unfolding statement_from
  statement_from-Takes Token.if_token = parse_if_statement-Takes takes
  statement_from-Takes Token.while_token = parse_while_statement-Takes takes
  statement_from-Takes Token.do_token = taking take_next-Takes λ _.
      reading (parse_block-Takes takes)
        λ b. reading (weaken (expect_next-Takes _)) λ _. Takes-pure _
  statement_from-Takes Token.for_token = taking (parse_for_statement-Takes takes) λ f. Takes-pure _
  statement_from-Takes Token.repeat_token = parse_repeat_statement-Takes takes
  statement_from-Takes Token.function_token = parse_function_statement-Takes takes
  statement_from-Takes Token.local_token = reading (check_ahead-Takes 1 _) λ b.
      Costs-if b (taking take_next-Takes λ _. weaken (parse_local_function_statement-Takes takes))
        (parse_local_statement-Takes takes)
  statement_from-Takes Token.double_colon = parse_label_statement-Takes
  statement_from-Takes Token.break_token = taking take_next-Takes λ _. Takes-pure _
  statement_from-Takes Token.goto_token = parse_goto_statement-Takes
  statement_from-Takes Token.minus = parse_expression_statement-Takes takes
  statement_from-Takes _ = parse_expression_statement-Takes takes

  statement-Takes : Takes 1 (statement guarded)
  unfolding statement
  statement-Takes = reading get_next-Takes λ t. statement_from-Takes t

module _ {F S : Type 0} where
  pub recursion_guard-Takes : (n : ℕ) → GuardedTakes (recursion_guard {F = F} {S = S} n)
  unfolding recursion_guard
  recursion_guard-Takes zero = record {
    parse_statement-Takes = Costs-fail _;
    parse_sub_expression-Takes = λ limit. Costs-fail _;
  }
  recursion_guard-Takes (suc n) = record {
    parse_statement-Takes = statement-Takes (recursion_guard-Takes n);
    parse_sub_expression-Takes = sub_expression-Takes (recursion_guard-Takes n);
  }

  -- An error, or a chunk from a source that ends with no error of the lexer and has no token left.
  pub data Chunked (s : Stream F S) : Parse F S (Chunk F S) → Type 0 where
    chunk : {c : Chunk F S} → ending s ≡ none → Chunked s (ok c at_end)
    no_chunk : {e : ParserError F S} → Chunked s (err e)

  end_of_chunk :
      (b : Block F S) {s : Stream F S} (rest : Stream F S)
      → ending rest ≡ ending s
      → Chunked s (and_then (look_ahead 0 rest) λ t. at_chunk_end t (record { block = b }))
  unfolding look_ahead read_ahead failure buffered ending
  end_of_chunk b at_end e = chunk (sym e)
  end_of_chunk b (fails l) e = no_chunk
  end_of_chunk b (next t at_end) e = no_chunk
  end_of_chunk b (next t (fails l)) e = no_chunk
  end_of_chunk b (next t (next u s)) e = no_chunk

  -- For every source, `parse_chunk` comes to an error, or to a chunk with no token left from a
  -- source that ends without an error of the lexer; no loop runs out of fuel.
  pub parse_chunk-Chunked : (s : Stream F S) → Chunked s (parse_chunk s)
  unfolding parse_chunk
  parse_chunk-Chunked s =
      whole ((parse_block-Takes (recursion_guard-Takes (max_recursion - 1))).run s)
    where
      whole :
          {r : Parse F S (Block F S)}
          → Leaves (λ b. 0) s r
          → Chunked s (
              and_then r
                λ b s'. and_then (look_ahead 0 s') λ t. at_chunk_end t (record { block = b }))
      whole failed = no_chunk
      whole (left {a = b} {rest} le e) = end_of_chunk b rest e
