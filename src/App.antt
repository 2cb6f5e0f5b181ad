-- ===== src/App.antt =====
-- middleware/request_logging.py, and the middlewares that fastapi.py and services/api-gateway put
-- round an application; the life, the wiring and the endpoints of a service.
pub mod Stack
pub mod Gateway
pub mod Lifespan
pub mod Wiring
pub mod Endpoints
