-- ===== src/Lib.antt =====
-- Cero is a compiler in C++ for a small language. A build (cero/compile/build.cc) locks a source,
-- lexes it, parses the tokens and hands the tree to a semantic analyzer that is still empty. This
-- library models the stages that do work, with the diagnostics that they report.
--
-- Report: messages, their formats and the check of their arguments (cero/report).
-- Source: source views and locations (cero/syntax/source.hh and .cc); Source/Cursor is the cursor
--   of cero/syntax/source_cursor.hh, Source/Locate is about locations. Text is a list of bytes; an
--   iterator is the text from it on.
-- Token: kinds, tokens, their texts (cero/syntax/token.hh and .cc); Token/Cursor is
--   cero/syntax/token_cursor.hh, Token/Skip is about comments. A token array is a list.
-- Unicode: character classes, decoding and the tables (cero/syntax/unicode.hh and .cc);
--   Unicode/Search is about the search in them, Unicode/Encoding about decoding.
-- Keywords: the keyword list and the encoded tails (cero/syntax/keywords.hh).
-- Lexer: cero/syntax/lexer.hh and .cc. State has the members and the small methods; Words, Numbers,
--   Operators, Comments and Quotes the handlers; Run the dispatch and the main loop. A method that
--   changes the lexer is a function from the old lexer to the new one. Tiles, Reading, Lexed and
--   Sound are about the tokens and reports of a run, Lookup about keywords, Utf8 about characters
--   of several bytes, Unclosed about literals that the end of the text ends.
-- Ast: the nodes (cero/syntax/ast.hh). Parser: cero/syntax/parser.cc. Rules has the tables, State
--   the members, the exceptions and the aborts, Expressions and Definitions the methods. Progress,
--   Enough, Signatures and Terminates are about the tokens that the methods consume and their
--   fuel, Within is about places in the text and reports, Returns about a whole run, Precedences
--   about the operator tables.
-- Sema: Scope and SymbolTable (cero/sema/symbol_table.hh and .cc), Visitor
--   (cero/syntax/ast_visitor.hh), TypeChecker (cero/sema/type_checker.cc and tir_tree.hh), a draft
--   that the driver does not call yet; Lookup is about scopes, Checked about the type checker.
-- Memory: the arena (cero/util/memory_arena.hh and .cc), whose blocks are a list and whose
--   addresses are numbers; Memory/Array is the dynamic array over it, with a memory of whole
--   elements. Valid, Requests, Regions, Dangling, Array/Contents and Array/Storage are about them.
-- FileView: memory-mapped files (cero/util/file_view.hh). System has the resources that a process
--   holds, Platform the operations that differ between systems with their laws, Posix and Windows
--   implement it (cero/util/file_view.posix.cc and .win.cc), Ownership is about views on
--   any system, Native on the one that a build takes (CMakeLists.txt).
-- Utf16: conversion of text for Windows (cero/util/utf16.win.cc). Console: the set-up of the console
--   on Windows (cero/report/console_reporter.win.cc).
-- Source/Lock: locking and unlocking (cero/syntax/source.hh and .cc).
-- Build: the driver (cero/compile/build.cc), given the result of locking the source; Build/Driver
--   locks and unlocks it, Tokens is about what the lexer hands to the parser, Complete, Closes and
--   Reports are about the whole run.
--
-- A `while` loop with exits is `loop` of Common/Loop, on fuel. Each loop of the lexer gets one more
-- than the bytes left, and each round consumes a byte. The parser's methods spend a unit of fuel
-- for each call; a run starts with eight times the tokens left and a constant, since between two
-- tokens that are consumed no more than eight calls are nested. Each round of its main loop but
-- the last two consumes a token.
--
-- Numbers of 32 and 64 bits wrap by `%`. `fmt::vformat`, the address that `operator new` returns,
-- `std::hash`, what the system answers to a call, also to one that gives a resource back, the two conversions of Windows and the contents
-- of mapped memory are parameters.
-- Not modelled: the text of system errors and of locations, which fmt formats, and the semantic
-- analyzer and evaluator of cero/sema, which have empty bodies.
pub mod Ast
pub mod Build
pub mod Common
pub mod Console
pub mod FileView
pub mod Keywords
pub mod Lexer
pub mod Memory
pub mod Parser
pub mod Report
pub mod Sema
pub mod Source
pub mod Token
pub mod Unicode
pub mod Utf16
