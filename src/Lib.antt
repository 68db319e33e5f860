-- ===== src/Lib.antt =====
-- stem is a Python library for tor: it talks to a tor process over its control port, to relays over
-- their ORPort, and reads what the tor network publishes. These modules model the messages of the
-- control port, the ORPort client, the exit policies, versions, and the validation
-- and conversion of addresses.
--
-- Base           Python's integers, texts, bytes and exceptions, and lemmas the other modules share.
-- Util           stem/util/connection.py: is_valid_ipv4_address, is_valid_ipv6_address, is_valid_port,
--                expand_ipv6_address, the masks and address_to_int. Util.Decimal and Util.Hex are
--                Python's str and int.
-- Client.Datatype  stem/client/datatype.py: the enumerations, Size, Address, Certificate,
--                LinkSpecifier, LinkProtocol and KDF, each with pack and pop. Field is what the cells
--                take a list of.
-- Client.Cell    stem/client/cell.py. Types has the classes with their values; Frame has Cell._pack
--                and the header that Cell.pop reads; RelayCell has that class with its encryption;
--                Payload has the constructors and payloads of the other classes; Wire puts them
--                together as pack, Cell.pop and Cell.unpack, which gives the cells that the generator yields
--                and the exception that ends them, if there is one.
-- Client.Relay   stem/client/__init__.py: Relay.connect, _recv, create_circuit, and the messages of a
--                Circuit.
-- ExitPolicy     stem/exit_policy.py: Rule parses an ExitPolicyRule, Match is is_match, Policy is
--                ExitPolicy with can_exit_to and is_exiting_allowed, Micro is MicroExitPolicy.
-- Util.TorTools  stem/util/tor_tools.py: fingerprints, nicknames, identifiers, hexadecimal digits.
-- Version        stem/version.py: the comparison of versions; Version.Parse is Version.__init__.
-- Control.Socket, Send  stem/socket.py: recv_message, recv_message_from_bytes_io, send_formatting and
--                send_message. Socket.Wire has replies as the control protocol writes them.
-- Control.Message, Line  stem/response/__init__.py: ControlMessage; ControlLine with pop, pop_mapping
--                and their helpers. Line.Unescape is Python's codecs.escape_decode, and Line.Escape is
--                how tor escapes text.
-- Control.Event  stem/response/events.py: the standard form of an event (Event._parse_standard_attr) and
--                BandwidthEvent._parse. The fuel of the loop over the keywords is the length of the text.
-- Control.Circuit  stem/control.py: _parse_circ_path and _parse_circ_entry.
-- Control.Reply  stem/response/getinfo.py, getconf.py, mapaddress.py, add_onion.py, authchallenge.py,
--                protocolinfo.py, onion_client_auth.py, and the SingleLineResponse of __init__.py, each
--                with its _parse_message.
--
-- What a reader's readline gives is a list of Read: a line, or an exception that is raised. After the
-- list the input has ended. recv_message goes on from read to read by recursion on that list, so it
-- returns whatever the input; the loop within a data block is data_loop. A ControlLine is its
-- remainder, a dict is an association list in the order of insertion.
--
-- A call returns its value or one of the exceptions of Base.Errors. Objects that are mutated are
-- passed and returned: a cipher context and a hash by RelayCell.encrypt and decrypt, and the buffer of
-- a connection as a Stream, whose pieces are what the socket gives, in their order. Random bytes, the
-- cipher, SHA-1, what a hash object returns and the encoding of file names are parameters. zlib's compression of a policy's text is
-- left out, since it is undone before the text is used.
--
-- The while loops run on fuel. Cell.unpack and the VERSIONS payload have fuel for each byte of the
-- content, which is enough since each round takes at least two; the key derivation has six rounds of
-- which five append twenty bytes each of the ninety-two that are asked for.
--
-- Text is ASCII, but what is read from the control port is decoded as UTF-8 by Base.Utf8. Ports and the
-- time are natural numbers. Bitwise and is of 128 bits, which every address fits. Not modelled are the
-- events but BW, the controller but for its circuit paths, authentication, the descriptors, the interpreter, and whatever opens
-- sockets, reads files or runs processes; of the exit policies the summary, the text of a policy and the flags for private and
-- default rules. Equality and hashing of cells and fields are those of
-- their attributes.
pub mod Base
pub mod Util
pub mod Version
pub mod ExitPolicy
pub mod Client
pub mod Control
