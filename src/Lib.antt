-- ===== src/Lib.antt =====
-- A verification library for the PostgreSQL client of the cluster backend
-- (tools/pg_cluster_backend/psc/postgresql, written P below).
--
-- The parts and their files. Bytes that go to or come from the server pass through four layers:
-- integers in network order, messages, the message buffer, and the transactions.
--
-- Base: Python exceptions as values (`Outcome`), lists measured by native numbers, slices,
-- `bytes.split`. A byte string is a list of numbers.
-- Struct: P/python/structlib.py. `mk_pack` and the pairs made by it are `ushort_pack`,
-- `ushort_unpack` and so on; `split_sized_data` is a generator, given as what it yields.
-- Element: P/protocol/element3.py. `Message` has a constructor for each class, `Class` names the
-- classes, `serialize`, `parse` and `to_bytes` are the methods `serialize`, `parse` and `bytes`;
-- `Parsed` is what `parse` returns, which for rows is a plain tuple;
-- `Backend.antt` and `Frontend.antt` have the bodies of the methods, class by class.
-- Buffer: P/protocol/pbuffer.py. `Stream.antt` is `pq_message_stream` over a model of
-- `io.BytesIO` (`File.antt`); `Spec.antt` says the same over the bytes that are still to be read.
-- Xact: P/protocol/xact3.py. `Instruction` and `Negotiation` are the classes with these names;
-- a list of messages has an identity (`id(messages)`). `Put.antt` is the loop of `standard_put`,
-- `Fast.antt` has `put_copydata` and `put_tupledata`, `Hook.antt` the tables. The generator
-- `state_machine` is the enumeration `Phase` of the places where it waits; md5 of hashlib and
-- crypt of P/resolved are parameters. What a handler of asynchronous messages does is not seen.
-- Client: P/protocol/client3.py. `Transport.antt` has the methods over the socket, whose calls are
-- given in advance, one by one; `Connect.antt` the opening of a connection;
-- `Trash.antt` the cursors and statements; `Complete.antt` the methods that drive a transaction,
-- which is a record of operations and laws (`Transactions`) that `Instructions.antt` fills with the
-- class `Instruction`.
-- Copyman: P/copyman.py. `Wire.antt` is `WireState`, and `Position.antt` says byte by byte what it
-- keeps track of; `Realign.antt` and `Produce.antt` are methods of `ProtocolProducer`;
-- `Manager.antt` is `CopyManager.run` from an `IteratorProducer` to a list of receivers, whose calls
-- are given in advance, round by round.
-- Driver: P/driver/pq3.py. `Transaction.antt` is the class with this name; the database is a record of
-- the operations that it uses (`Session`), and `Server.antt` says what the documentation of the
-- server says of its commands. `Stream.antt` is `MultiXactStream`, over what each request receives;
-- `Cursor.antt` has the commands that `Cursor` makes.
-- Lock: P/alock.py over the functions of the database, which are parameters.
-- Text: P/encodings/bytea.py, the quoting of P/string.py, and `chunk` and `find` of
-- P/python/itertools.py. Characters are those of ASCII where the code asks for their class.
-- Passfile: P/pgpassfile.py.
-- Bitwise: P/types/bitwise.py. Version: P/protocol/version.py.
-- Worker: `worker_func` of tools/pg_cluster_backend/pg_cluster_backend.py. A thread goes from
-- phase to phase by `step`, and other threads may run between two steps; behind the test, the read
-- and the write of the increment of the shared counter are two steps. What the servers answer in a round is an
-- `Attempt`, an argument of the step. `Threads.antt` has the threads of a run;
-- `Setup.antt` is `cluster_specific_execute`.
-- Common: the reader of parameters, the mask matcher and the signal handler of
-- tools/pg_cluster_backend/psc/pgstatcommon/pg_stat_common.py.
-- Logger: tools/pg_cluster_backend/psc/pgstatlogger/pg_stat_logger.py; what `logging` writes is
-- a list.
-- Connection: the layers joined, from the messages of one side to those of the other.
--
-- Bounds and fuel. The loop of `split_sized_data` takes as much fuel as the data has bytes, the
-- loops of `_rtruncate` and `__len__` one more than the file has bytes: each round consumes a byte
-- at least, and the theorems cover every input. The loop of `WireState.update` takes two rounds
-- more than the view has bytes. `chunk` takes one round more than the list has elements, and
-- `collect` of the driver one call more than there are rows. `complete_loop` of the client takes
-- fuel for its rounds, and ends in `unfinished` without it. `read` recurs on the number of
-- messages that may still be read. The size of a value of length 2 ^ 32 - 1 is that of NULL, so
-- rows with such a value are outside the round trips, as are strings that hold their own
-- terminator.
--
-- Not modelled: the C versions in P/port/_optimized (the Python fallbacks are modelled), the
-- DB-API driver, the settings and what else the driver has, the statement producer and receiver of
-- the copy manager, the notification manager, the codecs of the types, the files of configuration,
-- client parameters and versions of the server, and the code that only prints or calls the
-- operating system. Of the client, cancelling, tracing and the key of the backend.
pub mod Base
pub mod Struct
pub mod Element
pub mod Buffer
pub mod Connection
pub mod Xact
pub mod Lock
pub mod Text
pub mod Passfile
pub mod Worker
pub mod Common
pub mod Logger
pub mod Client
pub mod Bitwise
pub mod Version
pub mod Copyman
pub mod Driver
mod Examples
