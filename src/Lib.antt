-- ===== src/Lib.antt =====
-- This library models the Kerberos demo programs of the repository: the GSS-API client and server
-- (application/gssapi/client.c, server.c, with what they share in utils.h and utils.c), the client
-- and server on the krb5 API (application/krb5-api/client.c, server.c), the decoder of GSS-API
-- tokens (gssapi-parser/decoder.c), and the test program of the mechanism functions
-- (application/gssapi/test.c).
--
-- World is what the programs call and do not implement: libc and the kernel, libgssapi, libkrb5,
-- and the codec that is generated from gssapi-parser/gssapi.asn1. A program is a function from the
-- trace of the external calls made so far to an outcome: it returns, it ends by exit, it accesses
-- memory outside of an object or uses a variable that nothing has set (fault), or the fuel of a
-- loop runs out (hung). The answers to the calls are the records Os, Gss, Krb and Asn, functions of
-- the trace, which are parameters throughout. What a theorem relies on of them is among its
-- hypotheses. History and Descriptors read off a trace what has been released, deleted, closed and
-- connected.
--
-- Wire is read_all, write_all, send_token and recv_token of utils.c, with the offset that the code
-- computes for each call of read and write, the int that the code keeps the count in (`to_int`: a
-- count of 2^31 or more turns negative), the subtraction on a size_t of 64 bits, and the length in
-- network order; its children Writes and Outbox read off a trace what has been sent on a descriptor
-- and what the libraries have made to be sent. Display is display_context_flags, display_status and
-- print_oid; Mechs is the table of utils.h, test_mech_str, test_mech_oid and print_mechs, and
-- translate_mech_to_oid of client.c; Recording is record_token and the names of its files. Client
-- and Server are client.c and server.c of application/gssapi: Args (usage and parse_args), Connect
-- and Listen (the sockets), Context (establish_context, one round of its loop as a definition), and
-- Call and Talk (call_server, sign_message, talk_to_client and main, cut into the stages that
-- follow one another in them). The client calls Wire, Display, Mechs and Recording, and so does the
-- server except for Mechs. Krb5.Client and Krb5.Server are the two programs of
-- application/krb5-api, Decoder is decoder.c, and MechTest is test.c. Args is a plain reading of a
-- command line, which the two parse_args of application/gssapi are compared with.
--
-- Session is the life of a security context as RFC 2743 lets a caller lead it, a step relation on
-- the calls that take a context, with a function that reads the state off a trace. Dialogue is the
-- client and the server over one connection: the exchange of the message and its tag, Handshake the
-- two establish_context, and Conversation all of call_server from the connection on, against serve.
-- The two programs run on traces of their own; a link between them is given by what the kernels
-- answer, token by token.
--
-- Object identifiers and buffers are lists of bytes. Names, credentials and principals are numbers
-- that the libraries hand out; a context is a number, or none for GSS_C_NO_CONTEXT. A buffer that
-- is released is recorded by its contents. Loops whose end depends on the answers (read_all,
-- write_all, display_status_aux and the two establish_context) run on fuel, which the caller gives;
-- a round of read_all or write_all that moves bytes takes at least one off the length, so fuel
-- above the length is enough; the bound of 2^31 bytes for one call of read or write is above what
-- Linux moves in one call (0x7ffff000 bytes); the two establish_context need a round for each token
-- that the mechanism asks for. A number printed by %d needs no more rounds than its value plus one.
--
-- Not modelled: the sample programs of MIT Kerberos under application/reference-code; the grammar
-- of the decoder, from which its codec is generated; scripts, images and build files. An address is
-- a handle, so the lines that print one name the handle, and lines that print libc's texts for an
-- error leave the text out.
pub mod Base
pub mod World
pub mod Wire
pub mod Display
pub mod Args
pub mod Mechs
pub mod MechTest
pub mod Recording
pub mod Client
pub mod Server
pub mod Decoder
pub mod Krb5
pub mod Session
pub mod Dialogue
pub mod Tests
