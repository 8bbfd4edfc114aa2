-- ===== src/Lib.antt =====
-- MiniZero with a proof cost network: solvers of two-player games, the games, and their tables.
--
-- A solver (MiniZero/DepthSolver.h, MiniZero/SizeSolver.h, MiniZero/DFPNSolver.h and .cpp) searches
-- a game of Games/ by playing a move, searching, and undoing the move on one mutable position. The
-- df-pn solver keeps the numbers of positions in a transposition table, the open-addressing map of
-- MiniZero/OpenAddressHashTable.h, and asks a network for the order of the moves.
--
-- Base.Text: texts as lists of character codes, with toupper, to_string and atoi.
-- Board.Color, Board.Move, Board.Point: Games/Color.h, the class _Move of Games/GameBase.h with its
-- names in SGF and GTP, and Games/Point.h. Coordinates, and positions that may be -1, are in the
-- integers of Base.Int.
-- Board.Bitboard: Games/Bitboard.h, a set of positions as a list of its bits.
-- Storage.OpenAddress: MiniZero/OpenAddressHashTable.h. Storage.HashTable: Games/HashTable.h.
-- Both tables are lists of slots, and both are compared with a partial map from slots to keys, the
-- View of Storage.Probing; Storage.OpenAddress.AsMap compares the first with a map to its data.
-- Storage.FeatureIndex: Games/FeatureIndexList.h. Storage.FixedList: Games/list.h.
-- Storage.FeatureList: Games/FeatureList.h, over an interface of its features.
-- Solver.Game: what the solvers use of a game, as a record of operations with two laws on the legal
-- moves of the player in turn. A position is a value, and each search returns the position that it
-- leaves. Games.TieTacToe.AsGame and Games.Gomoku.AsGame are the games of Games/TieTacToe.h and, without
-- the knowledge of threats, of Games/Gomoku.h as such records. Games/Go.h is none, since its
-- isTerminal marks the living stones in the position.
-- Solver.Depth: findWinningPath, mustLossWithin, findWinDepth, findLossDepth and findWinMoves;
-- Solver.Depth.Problems: solveGame and the sub-problems that it writes. Solver.Depth.Within says
-- what a forced win within a number of moves is.
-- Solver.Size: findWinTreeSize and findLossTreeSize. Solver.Size.Forced says what a tree of a
-- forced win or loss is, and how many nodes it has.
-- Solver.TreeNode: MiniZero/TreeNode.h. Solver.Double: the operations on floating point numbers
-- that the solvers use, as a parameter; double and float are one type there.
-- Solver.Dfpn.Numbers: updateSolutionStatus, updatePNDN and selectBestChild. Solver.Dfpn.Entries:
-- the entries of the table and the state of the solver. Solver.Dfpn.Expand: the expansion with and
-- without the network. Solver.Dfpn.Mid: MID and solve. Solver.Dfpn.Truth and Semantics say what the
-- status of a node and of an entry states of a position.
-- Solver.BaseMcts: MiniZero/BaseMCTS.h and .cpp, the rounds of the tree search, with the values
-- that it compares in Solver.BaseMcts.Values. Solver.Mcts: the part of update of
-- MiniZero/MCTSSolver.cpp that passes statuses up the path of selected nodes.
-- Solver.TranspositionTable: MiniZero/TranspositionTable.h. Solver.StatisticData:
-- MiniZero/StatisticData.h.
-- Games.Gomoku: Games/Gomoku.h. Games.TieTacToe: Games/TieTacToe.h.
-- Games.Go: Games/Go.h and Games/Go.cpp. Games.Go.Area, Block and Grid are the classes
-- GoClosedArea, GoBlock and GoGrid; State is the class GoGame with the operations on its blocks;
-- Play has play, Play.Undo undo, Legal the legal moves, Legal.Influence what a move would do,
-- Benson the closed areas and the test of life, End the end of a game, the key for the table, the
-- planes for the network and deepCheck. A pointer to a block or an area is its index, and a null
-- pointer that the source would follow is none.
-- Examples: a small game whose keys tell its positions apart, and runs of the definitions, those of
-- the depth and size solvers and of a round of the tree search on tic-tac-toe and Gomoku.
--
-- Fuel. A probe of a table takes as much fuel as the table has slots, after which the loop is back
-- at its first slot. The depth solvers recurse on the depth limit of the source. MID takes a unit
-- of fuel for each call and each round of its loop, for which no bound is known, and the size
-- solver one for each call, for which its limit is enough. The loops over a set of positions take
-- a unit for each position of the board, Benson's passes one for each block and one more, and a
-- flood fill one for each bit. The tree search selects on a unit for each used node, and plays the
-- rounds that are set.
--
-- Not modelled: the network (libtorch) and the clock are parameters, as are the random keys of the
-- games. Files, printing, sockets and threads are left out, and so are the report strings. The
-- evaluation of MCTSSolver.cpp, and self-play have no file here. trivialUndo of Go.cpp indexes past
-- its vectors and is left out.
pub mod Base
pub mod Board
pub mod Examples
pub mod Games
pub mod Solver
pub mod Storage
