-- ===== src/Parser/Print/RoundTrip.antt =====
-- src/parser.rs: what is printed is read back.
use luster.Prelude.{ℕ, zero, suc, ◌-◌, ◌≤◌, ◌≡◌, refl, List, []}
use luster.Lexer.Tokens.{Token}
use luster.Parser.Syntax.{Block, Expression, expression}
use luster.Parser.Chunk.{recursion_guard}
use luster.Parser.Print.{print_block, print_expression}
use luster.Parser.Print.Fits.{FitsBlock, FitsExpression}
use luster.Parser.Print.ExpressionSteps.{Reads}
use luster.Parser.Print.Beginnings.{Follows}
use luster.Parser.Stream.{Parse, ok, at_end, look_ahead}
use luster.Parser.Syntax.{Chunk}
use luster.Parser.Chunk.{parse_chunk, max_recursion}
use luster.Parser.Print.Streams.{stream, look_ahead-stream}
use luster.Parser.Print.ExpressionSteps.{at_stream_end}
use luster.Parser.Print.RoundTrip.Ahead.{GuardedReads}
use luster.Parser.Print.RoundTrip.Blocks.{block-Reads}
use luster.Parser.Print.RoundTrip.Suffixes.{expression-Reads}
use luster.Parser.Print.RoundTrip.Statements.{statement_of-Reads}
pub mod Ahead
pub mod Blocks
pub mod Suffixes
pub mod Statements

module _ {F S : Type 0} where
  no_guard-Reads :
      (limit : ℕ) (e : Expression F S) (rest : List (Token F S))
      → FitsExpression 0 limit e
      → Reads ((recursion_guard 0).parse_sub_expression limit) (print_expression e rest) e rest
  unfolding FitsExpression
  no_guard-Reads limit (expression h t) rest fits = elim fits [ ]

  pub recursion_guard-Reads : (n : ℕ) → GuardedReads F S n
  unfolding recursion_guard FitsExpression
  recursion_guard-Reads zero = record {
    expression-Reads = λ limit e rest le fits fol. no_guard-Reads limit e rest fits;
    statement-Reads = λ st rest fits. elim fits [ ];
  }
  recursion_guard-Reads (suc n) = record {
    expression-Reads = expression-Reads (recursion_guard-Reads n);
    statement-Reads = statement_of-Reads (recursion_guard-Reads n);
  }

  -- Where `n` more guards can be taken, `parse_sub_expression` with a limit of at most 13 reads
  -- the print of an expression that fits the limit and the guards back, in front of tokens that
  -- end it, and leaves these.
  pub parse_sub_expression-print :
      (n limit : ℕ) (e : Expression F S) (rest : List (Token F S))
      → limit ≤ 13
      → FitsExpression n limit e
      → Follows limit rest
      → (recursion_guard n).parse_sub_expression limit (stream (print_expression e rest))
        ≡ ok e (stream rest)
  parse_sub_expression-print n limit e rest le fits fol =
      ((recursion_guard-Reads n).expression-Reads limit e rest le fits fol).eq

  -- For a block whose operators are as the priorities say, with no name, target or argument
  -- missing where the code reads one, and nested so that at most 199 guards are taken,
  -- `parse_chunk` reads its print back whole.
  pub parse_chunk-print :
      (b : Block F S)
      → FitsBlock (max_recursion - 1) b
      → parse_chunk (stream (print_block b [])) ≡ ok (record { block = b }) at_end
  unfolding parse_chunk stream
  parse_chunk-print b fits =
      rw (block-Reads (recursion_guard-Reads (max_recursion - 1)) b [] fits at_stream_end).eq
        (rw (look_ahead-stream {F = F} {S = S} []) refl)
