-- ===== src/Web.antt =====
-- main.go: the handlers of the web server, the poll for funded orders, and the start of the program.
pub mod Response
pub mod Handler
pub mod Replies
pub mod Quote
pub mod Place
pub mod Rows
pub mod Pages
pub mod Stream
pub mod Poll
pub mod Start
pub mod Tests
pub mod Serving
