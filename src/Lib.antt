-- ===== src/Lib.antt =====
-- Verification of XMLHttpRequest, a client library for HTTP/2 over TLS in C++ with the interface of
-- the browser's XMLHttpRequest.
--
-- An application drives XMLHttpRequest (source/xmlhttprequest.cpp), which owns an HttpTlsSession
-- (source/httptlssession.cpp), an AbstractSession (source/abstractsession.cpp). The session moves
-- bytes between the socket and nghttp2, and nghttp2 calls the handlers of
-- source/sessioncallbacks.cpp, which keep the streams (source/sessionstream.cpp) with their
-- requests and responses up to date and report to the application. What this library models, part
-- by part:
--
--   Http2.Token     source/http2.cpp, include/http2.h: lookup_token, init_hdidx, index_header
--   Http2.Status    source/http2.cpp: get_reason_phrase, stringify_status, parse_http_status_code
--   SessionUtil     include/sessionutil.h: utos, parse_uint, percent_decode
--   Js              include/jsfunctions.h: encodeURIComponent, decodeURIComponent, encodeFromArray,
--                   encode, decode
--   Message         source/httpheader.cpp, source/httprequest.cpp, source/httpresponse.cpp: the header
--                   fields as a sorted list, Request and Response as records with one function for
--                   each member function
--   Stream          source/sessionstream.cpp: Stream
--   Session         source/abstractsession.cpp: the map of streams, findStream, addStream,
--                   removeStream, findClosedStreams, and the callbacks of the application
--   Callbacks       source/sessioncallbacks.cpp: onBeginHeadersCallback, onHeaderCallback,
--                   onFrameRecvCallback, onDataChunkRecvCallback, onStreamCloseCallback,
--                   beforeFrameSendCallback as functions from a session to a session; Trace runs them
--                   in any order, as nghttp2 does
--   Io              source/abstractsession.cpp: stop, read, write, shouldStop, onSocketConnected,
--                   submitPing, startPing, submit and the handlers of the socket; Connect has
--                   startResolve, startConnect, goAway and what follows them; Reach runs all of
--                   these in any order, Replay runs the handlers of Callbacks that nghttp2 called
--                   meanwhile, Account counts the bytes, and Ending has the end of a request that
--                   is not asynchronous
--   Tls             source/httptlssession.cpp: the methods and the callback that reads a body;
--                   include/utilities.h: selectProto, selectH2 and the offer of the client
--   Utilities       include/utilities.h: split
--   Xhr             source/xmlhttprequest.cpp, source/xmlhttprequest_impl.cpp: prepare, setup, open,
--                   timeout, the headers, proccessUri; Send has send, sendGet, sendPost, connect,
--                   fetch, fetchWithBody, abort and the handler of the timer; Setup has setupSession
--                   and the set-up of the TLS context (include/utilities.h); Watch has what the
--                   reports of the session make of a request
--
-- A byte string is a list of numbers; a theorem that needs them to be bytes says so. Integers of
-- C++ are native numbers with the bounds of their type written out where the code can reach them:
-- size_t sums wrap at 2^64, the conversions between int64_t, size_t and int are functions, and
-- int64_t parsing has the code's overflow tests. A signed integer is `pos n` or `negsuc n`, which
-- is -(n + 1). `Prelude` holds what the parts share.
--
-- Loops are by recursion on their input. Three have fuel: utos, with as many rounds as the number
-- and one more; selectProto, with as many rounds as bytes and one more; and the loop of write(),
-- where any fuel above the number of bytes that nghttp2 has to send will do, as each round takes one
-- byte or more, or is the last.
--
-- Outside the repository are nghttp2, asio, OpenSSL, iconv and the C++ library. nghttp2 is the
-- record `Io.Nghttp2` of its functions, with `Io.Laws.IsLawful` for what its documentation says of
-- nghttp2_session_mem_send: it hands out the next bytes, at most a frame, none only where there are
-- no more, and its error is NGHTTP2_ERR_NOMEM. The callbacks of the application and the calls of
-- the socket and the timers are recorded in the order of the calls. The table that iconv writes is
-- an argument of `decode`, and the regular expressions of proccessUri are the record
-- `Xhr.Uri.Regex`, and the URL parser is a field of `Io.Submit.Library`. Of the C++ library the
-- model writes out what the code uses: std::multimap, std::unordered_map as a list without double
-- keys, std::stoi on two characters, isspace, toupper and isdigit of the C locale. Whether the string of
-- text() gets its memory is the record `Message.Response.Strings`. Exceptions and
-- undefined behaviour of the URI functions are results.
--
-- nghttp2 calls the handlers of source/sessioncallbacks.cpp while it sends and receives: with its
-- result, each function of `Io.Nghttp2` that does so gives the list of the handlers it called, which
-- `Io.apply_calls` runs on the streams and writes into the log. So the body of a response is
-- followed from the bytes of the socket to the stream. What the network does when a connection
-- starts is the record `Io.Connect.Network`; `Xhr.Send.World` holds it with the libraries and with
-- whether another thread holds the mutex insideCb, which `Io.Submit` and `Xhr.Send` read only
-- where the code tries the lock. The jobs of a request run one after the other, before what the
-- socket brings, and the service has stopped for good when it is stopped or runs out of work.
-- A pair of name and value that nghttp2 is handed with a pointer to a destroyed text has no value in
-- `Io.Submit.Nv`; `Io.Submit.Library` then stands for what comes of reading that memory. `Io.Account.logged` adds to any nghttp2 the history of what it handed out.
--
-- Not modelled: the timer behind startWaitConnectionTimer, which only waits; the calls of asio and
-- OpenSSL, of which what they answer is in `Io.Connect.Network` and `Xhr.Setup.TlsLibrary`; logging;
-- the text helper replace of include/utilities.h, which is one call of boost::regex; and third-
-- party/url-parser, a copy of another project's library.
pub mod Prelude
pub mod Http2
pub mod SessionUtil
pub mod Js
pub mod Message
pub mod Stream
pub mod Session
pub mod Callbacks
pub mod Io
pub mod Tls
pub mod Utilities
pub mod Xhr
