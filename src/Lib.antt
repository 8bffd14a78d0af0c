-- ===== src/Lib.antt =====
-- The FPP tools: the lexer of the F Prime modeling language (fpp_lexer), the semantic core of the
-- analysis that checks models written in it (fpp_analysis), the pretty printer's documents (fpp_format)
-- and the evaluation of queries over syntax trees (fpp_query). The lexer cuts a text into tokens, which
-- the parser reads. The analysis gives every expression a type and a value, checks the formats of arrays and
-- structs, computes the serialized sizes of types, and numbers the ports of the connections of a
-- topology. These parts interact as follows. An expression's type is the common type of those of its
-- operands (`Type::common_type`); a constant is computed by the arithmetic of values (`Value::add` and
-- the others) and is then converted to the type that its context asks for (`Type::convert` says whether
-- it may be, `Value::convert` does it); a default value comes from the type (`Type::default_value`). The
-- formatter lowers a syntax tree to a document, which `render` lays out within a width. A query is an
-- expression over the serialized syntax tree: `Needs` says which nodes it reads, these are bound, and it
-- is evaluated.
--
-- Where each part is modelled. A function of the source has a definition of its own name, a closure or
-- a match arm a definition named for what it does.
-- - Prelude: Boolean tests, the integers, Rust's checked `i128` (Prelude.I128), `Result` and the
--   iterators (Prelude.Lists), recursion on fuel with a measure (Prelude.Recursion).
-- - Semantics.Data: `Type` and `Value` with all their variants, of fpp_analysis/src/semantics/types.rs
--   and value.rs. `Arc` is sharing only and is left out. An `IndexMap` of members is the list of its
--   entries in order, and an insertion replaces the value of a name that is there.
-- - Types: fpp_analysis/src/semantics/types.rs. Types.Structure has the predicates, type identity and
--   the views as anonymous arrays and structs; Types.Convert `may_be_converted`, `convert` and
--   `is_convertible_to`; Types.Common `common_type` and its seven rules; Types.Size the visitor of
--   serialized sizes. Types.WellFormed says which types the analysis builds.
-- - Values: fpp_analysis/src/semantics/value.rs. Values.Integers has truncation and the shifts of
--   `i128`; Values.Operands the type of a value; Values.Arithmetic the operations on values;
--   Values.Defaults the default values; Values.Conversion the conversion of values.
-- - Format: fpp_analysis/src/semantics/format.rs, the parser of format strings and the split of a format
--   into its parts. A text is the list of its characters' code points. Format.Printer has a printer
--   that the source does not have.
-- - Topology.PortNumbers: fpp_analysis/src/semantics/resolve_topology/port_numbering_state.rs and
--   general_port_numbering.rs, and the number maps of fpp_analysis/src/semantics/topology.rs. A set of
--   used numbers is a list, and a connection a key of any type with an equality.
-- - Topology.Matching: fpp_analysis/src/semantics/resolve_topology/matched_port_numbering.rs. The module
--   itself has the numbering of a pair of connections, Matching.Instances that of one matching. The
--   connections at the two ports, which the topology looks up, are arguments, and what the numbering
--   reads of a connection is a record of functions (`Connections`). An `expect` is an error of its own.
-- - Lexer: fpp_lexer/src/chars.rs (Lexer.Chars), token.rs (Lexer.Token, and Lexer.Keywords with the
--   table of keywords and its search) and lexer.rs: Lexer.Cursor has the state and the reading of
--   characters, Lexer.Scan the loops over strings, numbers, annotations and comments, Lexer.Fetch the
--   arms of `fetch_token`, Lexer.Next `next` and the run of the lexer over a text. A text is the list of
--   its characters' code points, and a position counts bytes of UTF-8.
-- - Pretty: fpp_format/src/doc.rs. Pretty.Doc has the documents, Pretty.Fits `fits`, Pretty.Render the
--   loop of `render`, Pretty.Align `align`, Pretty.Finish `finish` and `render` itself. The binary search
--   among the verbatim lines is membership, since the list of them rises.
-- - Query: fpp_query/src/query. Query.Glob has `glob_match`, Query.Ast the expressions and `Needs` of
--   ast.rs; of eval.rs, Query.Values has the operations on texts and the diagnostics, Query.Eval the
--   relations, Query.Expr the paths, calls and expressions. A diagnostic is its span and what its
--   message is about; that every diagnostic names the matched definition, and the notes, are left out.
--   Query.Panics.Calls has the table of functions of parse.rs.
-- - Examples: the theorems at concrete inputs.
--
-- Bounds and fuel. `may_be_converted`, `common_type` and `Value::convert` recurse on types, at times
-- after a step from a named type to its structure or from an enum constant to its representation;
-- Types.Measure gives a weight that falls at each call, and the functions get it as fuel. Where it ran
-- out, `may_be_converted` would give an error of its own, next to the one for a failed assertion or
-- `expect`; `common_type` and `Value::convert` would give `none`, and the general recursion takes any
-- other answer there. The loop over
-- format fields gets one more than the number of characters, the search for a port number the number
-- of used ones. `serialized_size` has a depth, for the type of string lengths may itself be asked for
-- the size of a string; a depth of one is enough where that type has a primitive size. An `i128` is an
-- integer, with the range written out where the source checks it. The numbers of ports and of the
-- values of enum constants are not bounded. The loops of the lexer get one more than the number of
-- characters left, for each round but the last reads one; a loop that went on would set a mark in the
-- state (`stalled`), which nothing resets. `glob_match` gets `round_bound`, which counts
-- the positions of its star. `fits` and `render` get the number of the documents' nodes, one of which
-- each round takes. The relations of queries get the size of the value on the left, which falls from a
-- list to its items. Positions, columns and indentations are not bounded.
--
-- Parameters. The operations on floats are those of IEEE 754 (`FloatOps`). The lookups of the analysis
-- that sizes of strings make are functions (`Analysis`). The characters that go on an identifier are
-- those of the crate unicode_ident. The values of queries are those of the crate serde_json: `Json` has a
-- view of what a value is, the values that the evaluator builds, and a size.
--
-- Not modelled: the syntax tree and the parsers, that of queries too; the passes that fill the analysis,
-- state machines and the resolution of topologies apart from the numbering of ports, which work on the
-- syntax tree and need a model of it; the formatter's lowering of syntax trees to documents; the
-- selection of nodes and the command line of the query tool, the language server, the diagrams, the
-- bindings and the editors' extensions, which are input, output and glue. Of the modelled files: the
-- formats that array and struct types carry, which no modelled operation reads, and the printing of
-- values, types and errors.
pub mod Prelude
pub mod Semantics
pub mod Types
pub mod Values
pub mod Format
pub mod Lexer
pub mod Topology
pub mod Query
pub mod Pretty
pub mod Examples
