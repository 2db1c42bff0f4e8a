-- ===== src/Domain/Business.antt =====
-- internal/domain/business/business.go: the verified state of a business. The float of a metric
-- is a parameter: nothing here computes with it.
pub mod Validity
use webmcp_backend.Common.{
  ℕ, String, Bool, ◌||◌, List, ltb, ◌==◌, nat_eq, message, Checked, reject, each, ok, ◌>>=◌, ◌>>◌,
}
use webmcp_backend.Common.Text.{is_blank}
use webmcp_backend.Common.Int.{ℤ, pos, ltb_ℤ, leb_ℤ}
use webmcp_backend.Domain.Core.{Ident, validate_id}

pub record Product : Type 0 where
  pub id : Ident
  pub sku : String
  pub name : String
  pub price_cents : ℤ
  pub cost_cents : ℤ
  pub inventory_units : ℤ
  pub active : Bool
  pub version : ℕ

unfoldable pub validate_product : Product → Checked
validate_product p = do
  validate_id p.id "product_id"
  reject (is_blank p.sku || is_blank p.name) (message "product sku and name are required")
  reject
      (ltb_ℤ p.price_cents (pos 0) || ltb_ℤ p.cost_cents (pos 0) || ltb_ℤ p.inventory_units (pos 0))
      (message "product monetary values and inventory cannot be negative")
  reject (ltb_ℤ p.price_cents p.cost_cents) (message "product cost cannot exceed price")
  reject (p.version == 0) (message "product version must be positive")

pub record Customer : Type 0 where
  pub id : Ident
  pub name : String
  pub segment : String
  pub active : Bool
  pub version : ℕ

unfoldable pub validate_customer : Customer → Checked
validate_customer c = do
  validate_id c.id "customer_id"
  reject (is_blank c.name || c.version == 0)
      (message "customer name and positive version are required")

pub record Order : Type 0 where
  pub id : Ident
  pub customer_id : Ident
  pub product_id : Ident
  pub quantity : ℤ
  pub revenue_cents : ℤ
  pub cost_cents : ℤ
  pub occurred_at_unix : ℤ
  pub version : ℕ

unfoldable pub validate_order : Order → Checked
validate_order o = do
  validate_id o.id "order_id"
  validate_id o.customer_id "customer_id"
  validate_id o.product_id "product_id"
  reject
      (leb_ℤ o.quantity (pos 0)
        || ltb_ℤ o.revenue_cents (pos 0)
        || ltb_ℤ o.cost_cents (pos 0)
        || o.version == 0)
      (message "order quantity, money and version are invalid")
  reject (ltb_ℤ o.revenue_cents o.cost_cents) (message "order cost cannot exceed revenue")

pub record Metric (F : Type 0) : Type 0 where
  pub key : String
  pub value : F
  pub unit : String
  pub period : String
  pub source : String
  pub version : ℕ

unfoldable pub validate_metric : {F : Type 0} → Metric F → Checked
validate_metric m =
    reject (is_blank m.key || is_blank m.period || is_blank m.source || m.version == 0)
      (message "metric key, period, source and positive version are required")

pub record Snapshot (F : Type 0) : Type 0 where
  pub business_id : Ident
  pub version : ℕ
  pub products : List Product
  pub customers : List Customer
  pub orders : List Order
  pub metrics : List (Metric F)

unfoldable pub validate_snapshot : {F : Type 0} → Snapshot F → Checked
validate_snapshot s = do
  validate_id s.business_id "business_id"
  reject (s.version == 0) (message "business version must be positive")
  each validate_product s.products
  each validate_customer s.customers
  each validate_order s.orders
  each validate_metric s.metrics
