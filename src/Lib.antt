-- ===== src/Lib.antt =====
-- The Cminus-f compiler: from the tree that the parser builds to the abstract syntax tree, and the
-- generation and optimization of the intermediate code.
--
-- The parser (src/parser/syntax_analyzer.y) builds a concrete syntax tree with the functions of
-- src/common/syntax_tree.c. AST::AST (src/common/ast.cpp) turns it into the classes of
-- include/ast.hpp. A visitor (src/cminusfc/cminusf_builder.cpp) emits light IR from these, whose
-- objects (src/lightir) point at each other by operands and use lists. Passes rewrite these objects;
-- those that are modelled are constant propagation (src/optimization/ConstPropagation.cpp) and the
-- analyses of live variables (src/optimization/ActiveVars.cpp) and of dominators
-- (src/optimization/Dominators.cpp), which only read them.
--
-- Base holds what the modules share: native numbers, integers, lists and the outcomes of a C++ call
-- (Result: it returns, it aborts, its behaviour is undefined, or it does not end). A std::set is a list
-- of its members, of which the code reads the membership alone.
--
-- Tree is src/common/syntax_tree.c with `node` of the grammar. A name is the array of 30 bytes: a text
-- that does not fit leaves an array that is no C string. A node has room for ten children.
--
-- Ast is include/ast.hpp; Ast.Node has the values that a pointer to an ASTNode may hold, and its
-- casts. Ast.Transform is AST::transform_node_iter, with its branches in the child modules: `dispatch`
-- is the chain of name comparisons, and the loops that flatten a left-recursive list on a stack are
-- flatten2, flatten3 and pop_all of Transform.Walk. A cast to another class than the object's is
-- undefined. The recursion is on fuel; the height of the tree is enough. Ast.Grammar is the tree that
-- the semantic actions build for a program, Ast.Fits says of which programs it holds all, and
-- Ast.RoundTrip has the proofs. std::stoi, std::stof and the texts of the number tokens are parameters.
--
-- Ast.Printer is ASTPrinter: its depth and what it has written are the state, and std::cout is a list
-- of pieces. Builder.Scope is the class Scope of include/cminusf_builder.hpp, the innermost scope first;
-- a std::map is a list of its entries, and a read or a pop of an empty vector is undefined.
--
-- Builder.Gen is src/cminusfc/cminusf_builder.cpp. The state is the record Builder: the module's code, the
-- scopes, and the global variables of the file; the name of a block is a word and the number of
-- GET_LABEL_NAME. The calls of IRBuilder are in Builder.Gen, the visitors (build_expression and so on)
-- in Gen.Expressions, Gen.Statements and Gen.Functions, and the end of visit(ASTFunDeclaration), which
-- removes blocks that only jump, in Gen.Cleanup. There the loops at again1 and again2 are on fuel: a
-- jump that goes through more blocks than there are to remove never ends. A null pointer that is read,
-- a wrong cast and a variable that was not initialised are undefined behaviour; an assertion that fails
-- is an abort. Gen.Typing is a type system for expressions and Gen.Declared that for statements;
-- Gen.Ready is what the visitors need of the state: use lists whose entries name operands, one object
-- for each type, and labels whose numbers fall. The converse, that each operand has its entry, is not
-- asked for, since BasicBlock::delete_instr at the end of a function takes the entries of an instruction
-- whose operands stay. Gen.Inside adds what holds within a function's body. Gen.Emits,
-- Gen.Addresses, Gen.Elements, Gen.Operations, Gen.Stores and Gen.Arguments go through what the
-- visitors call; Gen.WellTyped has the induction on expressions and Gen.Checked that on statements.
-- Gen.Threading is about the loops at again1 and again2, and Gen.Deleted about what is deleted before.
--
-- Ir.Heap is src/lightir/Value.cpp and User.cpp: pointers are numbers, and the heap has an object's
-- class, operands and use list. set_operand leaves the entry in the former operand's use list, as the
-- code does. Ir.Instruction has the opcodes. Opt.ConstFolder is the class ConstFolder, whose
-- signed overflow and division by zero are undefined, and Opt.ConstProp is ConstPropagation::run with
-- BasicBlock::delete_instr. Floats are bit patterns whose arithmetic is a parameter. Opt.ConstProp.Values
-- says what the values of a run are, Opt.ConstProp.Unused follows the uses of what is deleted, and
-- Opt.ConstProp.Thinned has the pass as a whole.
--
-- Opt.ActiveVars is ActiveVars::run: `gather_all` is the loop that finds the use, def and phi sets of
-- each block, `visit_block` the body of the fixpoint and `iterate` the loop around it, on a number of
-- rounds. Each round before the last adds a member to some live_in or live_out, so twice the number of
-- blocks times the number of operands is enough. Opt.ActiveVars.Exposed describes the sets of a block
-- and Opt.ActiveVars.Least what the fixpoint finds. Opt.ActiveVars.Liveness has liveness as
-- Documentations/4-ir-opt defines it. The pass follows an edge with fewer values than that: it leaves
-- out those that phis of the successor take from other blocks alone, also where they are used otherwise.
--
-- Opt.Dominators is src/optimization/Dominators.cpp: the recursion of post_order_visit is on fuel, for
-- which the number of blocks is enough; the two loops of intersect are `climb`, and the loop that
-- inserts a block in the frontiers is `run_up`. `idom_round` is the loop of create_idom over the
-- reverse post order; the number of its rounds is a parameter. The ids and the immediate dominators
-- are functions, and Opt.Dominators.Ancestors says when they are those of a tree.
--
-- Ir.Types is the part of src/lightir/Module.cpp and Type.cpp that makes types once each and hands out
-- pointers: the five basic types are the objects 0 to 4 of a module. A function type is made anew at
-- each call.
--
-- Ir.Blocks is the control flow graph: the lists of predecessors and successors of
-- include/lightir/BasicBlock.h, and Function::remove of src/lightir/Function.cpp.
--
-- Ir.Create is the creation of instructions of src/lightir/Instruction.cpp: `create` is the constructors'
-- common part (the object, its operands, its place in the block), and the create functions call it.
--
-- Tests has runs on concrete inputs.
--
-- Not modelled: the scanner and the parser's automaton (generated), the printing of IR and of
-- concrete trees, the release of memory, the names of IR values, and the other passes. That the rounds of create_idom come to an end is not shown, nor that
-- the code of a whole function is generated.
pub mod Base
pub mod Tree
pub mod Ast
pub mod Ir
pub mod Opt
pub mod Tests
pub mod Builder
