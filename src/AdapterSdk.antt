-- ===== src/AdapterSdk.antt =====
-- adapter_sdk.py: an adapter that other products build to answer the gateway. It keeps a receipt of
-- each request in a database of its own. The HTTP framework and the handlers are outside: `execute`
-- is split where it calls the handler, whose answer comes as an argument.
mod Requests
mod Receipts
mod AtMostOnce
unfoldable pub use Requests.*
unfoldable pub use Receipts.*
unfoldable pub use AtMostOnce.*
